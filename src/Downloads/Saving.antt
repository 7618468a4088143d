-- ===== src/Downloads/Saving.antt =====
-- What a download leaves on the disk (src/core/dl/http_client.go).
use Prim.Native.String.{◌++◌ as str_append}
use text.Mathlib.TextLemmas.{append-nil, append_cancel_left, nil≢cons}
use yes.Prelude.{
  if◌then◌else◌, nat_eq, str_eq_refl, ◌∙◌, Bool, true, String, str_eq, eq_iff, ◌≡◌, ◌≢◌, ◌⊎◌, inl,
  inr, refl, arith, Bool-cases,
}
use yes.Downloads.{Got, got, failed}
use yes.Downloads.Http.{
  HttpResponse, Os, Transfer, Disk, stored_at, write_to_file, renamed, exists_at, save,
  determine_filename, on_answer, download_file,
}

save-whole :
    (t : Transfer) (name : String) (overwrite : Bool) (response : HttpResponse) (disk : Disk)
    (path : String)
    → path ≢ str_append name ".part"
    → ((save t name overwrite response disk).0.file path ≡ disk.file path)
      ⊎ ((save t name overwrite response disk).0.file path ≡ response.body)
unfolding save renamed write_to_file stored_at
save-whole t name overwrite response disk path h = ground (
  arith,
  eq_iff path (str_append name ".part"),
  eq_iff (str_append name ".part") (str_append name ".part"),
  h,
)

ne-part : (name : String) → name ≢ str_append name ".part"
ne-part name h = nil≢cons (append_cancel_left name "" ".part" (append-nil name ∙ h))

-- After a result there is something under the name of the result.
save-exists :
    (t : Transfer) (name : String) (overwrite : Bool) (response : HttpResponse) (disk : Disk)
    (p : String)
    → (save t name overwrite response disk).1 ≡ got p
    → exists_at (save t name overwrite response disk).0 p ≡ true
unfolding save renamed write_to_file stored_at exists_at
save-exists t name overwrite response disk p h = ground (
  arith,
  h,
  str_eq_refl name,
  str_eq_refl (str_append name ".part"),
  eq_iff name (str_append name ".part"),
  ne-part name,
)

-- Either nothing was written to the path, or the whole body of the response.
unfoldable pub IsWhole : String → Disk → Got HttpResponse → Disk → Type 0
IsWhole path disk answer after =
    (after.file path ≡ disk.file path)
    ⊎ ((response : HttpResponse) × (answer ≡ got response) × (after.file path ≡ response.body))

IsWhole-of :
    (path : String) (disk after : Disk) (response : HttpResponse)
    → (after.file path ≡ disk.file path) ⊎ (after.file path ≡ response.body)
    → IsWhole path disk (got response) after
unfolding IsWhole
IsWhole-of path disk after response (inl same) = inl same
IsWhole-of path disk after response (inr whole) = inr (response, refl, whole)

on_answer-IsWhole :
    (os : Os) (has_question_mark : String → Bool) (t : Transfer) (url file_name : String)
    (overwrite : Bool) (disk : Disk) (path : String) (answer : Got HttpResponse)
    → ((name : String) → path ≢ str_append name ".part")
    → IsWhole path disk answer
        (on_answer os has_question_mark t url file_name overwrite disk answer).0
unfolding on_answer IsWhole
on_answer-IsWhole os has_question_mark t url file_name overwrite disk path (failed why) h = inl refl
on_answer-IsWhole os has_question_mark t url file_name overwrite disk path (got response) h =
    let name =
      if str_eq file_name ""
      then determine_filename os has_question_mark url response.content_disposition
      else file_name in
    elim (Bool-cases (nat_eq response.status 200)) [
      | inl e ↦ rw e (
          IsWhole-of path disk (save t name overwrite response disk).0 response
            (save-whole t name overwrite response disk path (h name)))
      | inr e ↦ rw e (inl refl)
    ]

-- Whatever fails, no file but a temporary one, whose name ends in `.part`, is ever partly written by
-- DownloadFile: a file under any other name is afterwards as it was, or it holds the whole body of the
-- response.
pub download_file-IsWhole :
    (os : Os) (has_question_mark : String → Bool) (t : Transfer) (url file_name : String)
    (overwrite : Bool) (disk : Disk) (path : String)
    → ((name : String) → path ≢ str_append name ".part")
    → IsWhole path disk t.answer
        (download_file os has_question_mark t url file_name overwrite disk).0
unfolding download_file IsWhole
download_file-IsWhole os has_question_mark t url file_name overwrite disk path h =
    ground
      (arith, on_answer-IsWhole os has_question_mark t url file_name overwrite disk path t.answer h)

on_answer-exists :
    (os : Os) (has_question_mark : String → Bool) (t : Transfer) (url file_name : String)
    (overwrite : Bool) (disk : Disk) (answer : Got HttpResponse) (p : String)
    → (on_answer os has_question_mark t url file_name overwrite disk answer).1 ≡ got p
    → exists_at (on_answer os has_question_mark t url file_name overwrite disk answer).0 p ≡ true
unfolding on_answer
on_answer-exists os has_question_mark t url file_name overwrite disk (failed why) p h =
    ground (arith, h)
on_answer-exists os has_question_mark t url file_name overwrite disk (got response) p h =
    let name =
      if str_eq file_name ""
      then determine_filename os has_question_mark url response.content_disposition
      else file_name in
    ground (arith, h, save-exists t name overwrite response disk p)

-- If DownloadFile returns a path without an error, then a file or a directory exists there.
pub download_file-exists :
    (os : Os) (has_question_mark : String → Bool) (t : Transfer) (url file_name : String)
    (overwrite : Bool) (disk : Disk) (p : String)
    → (download_file os has_question_mark t url file_name overwrite disk).1 ≡ got p
    → exists_at (download_file os has_question_mark t url file_name overwrite disk).0 p ≡ true
unfolding download_file
download_file-exists os has_question_mark t url file_name overwrite disk p h =
    ground
      (arith, h, on_answer-exists os has_question_mark t url file_name overwrite disk t.answer p)
