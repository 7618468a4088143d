-- ===== src/Downloads/Http.antt =====
-- src/core/dl/http_client.go. What the network answers to each attempt, and what the file system answers,
-- are parameters; the headers and the bodies of requests are passed on only.
use Prim.Native.String.{◌++◌ as str_append}
use yes.Prelude.{
  ℕ, zero, suc, ◌+◌, ◌*◌, Bool, true, ◌&&◌, ◌||◌, List, Option, none, some, String, nat_eq, not,
  if◌then◌else◌, str_eq, ltb,
}
use yes.Downloads.{Got, got, failed}

-- `*http.HttpResponse`: its status, the header Content-Disposition and the body, if it can be read.
pub record HttpResponse : Type 0 where
  pub status : ℕ
  pub content_disposition : String
  pub body : Option (List ℕ)

-- What `client.Do` returns; `isTemporaryError` decides on the errors.
pub data Attempt : Type 0 where
  responds : HttpResponse → Attempt
  temporary : Attempt
  permanent : Attempt

-- The result of `sendRequest`, how many requests were sent, and the seconds slept between them.
pub record SendOutcome : Type 0 where
  pub result : Got HttpResponse
  pub requests : ℕ
  pub slept : ℕ

abbrev max_retries : ℕ
max_retries = 2

-- The loop from `attempt` on; `left` attempts are left, `last` is `reqErr` and `backoff` the next sleep.
unfoldable pub attempts : (ℕ → Attempt) → ℕ → ℕ → ℕ → ℕ → String → SendOutcome
attempts answers attempt zero backoff slept last = record {
  result = failed last;
  requests = attempt;
  slept = slept;
}
attempts answers attempt (suc left) backoff slept last =
    let waited = if ltb 0 attempt then slept + backoff else slept in
    let next = if ltb 0 attempt then backoff * 2 else backoff in
    let later = λ (why : String). attempts answers (suc attempt) left next waited why in
    elim (answers attempt) [
      | responds r ↦
          if ltb r.status 500
          then record { result = got r; requests = suc attempt; slept = waited }
          else later "unexpected status code"
      | temporary ↦ later "temporary error"
      | permanent ↦ record {
        result = failed "permanent error";
        requests = suc attempt;
        slept = waited;
      }
    ]

-- `sendRequest`, for a request that `http.NewRequestWithContext` makes or not.
unfoldable pub send_request : Bool → (ℕ → Attempt) → SendOutcome
unfolding attempts
send_request is_request answers =
    if is_request
    then attempts answers 0 max_retries 1 0 ""
    else record { result = failed "failed to create request"; requests = 0; slept = 0 }

-- `regexp`, `net/url`, `path/filepath`, and what the file system answers while a file is fetched.
pub record Os : Type 0 where
  pub extract_filename : String → String
  pub url_base : String → Option String
  pub sanitize : String → String
  pub join_downloads : String → String
  pub unique_name : String

-- The first of the names that there is; `has_question_mark` is `strings.Contains` for "?": the header's, the one in the URL, or a new one.
unfoldable pub determine_filename : Os → (String → Bool) → String → String → String
determine_filename os has_question_mark url content_disp =
    let filename = os.extract_filename content_disp in
    if not (str_eq filename "")
    then os.join_downloads (os.sanitize filename)
    else elim (os.url_base url) [
      | none ↦ os.join_downloads os.unique_name
      | some base ↦
          if (not (str_eq base "") && not (str_eq base "/")) && not (has_question_mark base)
          then os.join_downloads (os.sanitize base)
          else os.join_downloads os.unique_name
    ]

-- The files and the directories, by path.
pub record Disk : Type 0 where
  pub file : String → Option (List ℕ)
  pub is_dir : String → Bool

unfoldable pub stored_at : String → Option (List ℕ) → Disk → Disk
stored_at path bytes disk = record disk { file = λ p. if str_eq p path then bytes else disk.file p }

-- What happens to one download: the answer to its request, and which calls of the system fail. A copy
-- that fails leaves what it has written.
pub record Transfer : Type 0 where
  pub is_request : Bool
  pub answer : Got HttpResponse
  pub mkdir_fails : Bool
  pub create_fails : Bool
  pub copied : Option (List ℕ)
  pub rename_fails : Bool

-- `writeToFile`
unfoldable pub write_to_file : Transfer → String → HttpResponse → Disk → Disk × Got Unit
unfolding stored_at
write_to_file t filename response disk =
    if t.create_fails then (disk, failed "failed to create the file") else elim response.body [
      | none ↦ (stored_at filename t.copied disk, failed "failed to write to the file")
      | some bytes ↦ (stored_at filename (some bytes) disk, got tt)
    ]

-- `os.Rename` of the temporary file, which does not replace a directory.
unfoldable pub renamed : Transfer → String → Disk × Got Unit → Disk × Got String
unfolding stored_at
renamed t file_name (disk, failed why) = (disk, failed why)
renamed t file_name (disk, got done) =
    let temp = str_append file_name ".part" in
    if t.rename_fails || disk.is_dir file_name
    then (disk, failed "failed to rename the temporary file")
    else (stored_at temp none (stored_at file_name (disk.file temp) disk), got file_name)

unfoldable pub exists_at : Disk → String → Bool
exists_at disk path = elim (disk.file path) [ none ↦ disk.is_dir path | some bytes ↦ true ]

-- The end of `DownloadFile`, with the name and the response.
unfoldable pub save : Transfer → String → Bool → HttpResponse → Disk → Disk × Got String
unfolding write_to_file renamed exists_at
save t file_name overwrite response disk =
    if not overwrite && exists_at disk file_name
    then (disk, got file_name)
    else if t.mkdir_fails
    then (disk, failed "failed to create the directory")
    else renamed t file_name (write_to_file t (str_append file_name ".part") response disk)

-- `DownloadFile` after its request was answered.
unfoldable pub on_answer :
    Os
    → (String → Bool)
    → Transfer
    → String
    → String
    → Bool
    → Disk
    → Got HttpResponse
    → Disk × Got String
unfolding save determine_filename
on_answer os has_question_mark t url file_name overwrite disk (failed why) =
    (disk, failed "the request failed")
on_answer os has_question_mark t url file_name overwrite disk (got response) =
    let name =
      if str_eq file_name ""
      then determine_filename os has_question_mark url response.content_disposition
      else file_name in
    if not (nat_eq response.status 200)
    then (disk, failed "unexpected status code received")
    else save t name overwrite response disk

unfoldable pub download_file :
    Os → (String → Bool) → Transfer → String → String → Bool → Disk → Disk × Got String
unfolding on_answer
download_file os has_question_mark t url file_name overwrite disk =
    if str_eq url ""
    then (disk, failed "an empty URL was provided")
    else if not t.is_request
    then (disk, failed "failed to create the request")
    else on_answer os has_question_mark t url file_name overwrite disk t.answer
