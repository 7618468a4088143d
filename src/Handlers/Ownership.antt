-- ===== src/Handlers/Ownership.antt =====
-- Only the owner of a playlist changes it by commands.
use yes.Prelude.{
  ◌≡◌, refl, Bool, true, false, List, [], ◌∷◌, Option, none, some, String, ℤ, All, int_eq, str_eq,
  eq_iff, ltb, length, arith, Bool-cases, Option-cases, inl, inr,
}
use yes.Prelude.Decimal.{atoi}
use yes.Database.Playlists.{
  Song, Playlist, Collection, create_playlist, get_playlist, delete_playlist, add_song_to_playlist,
  remove_song_from_playlist, get_user_playlists, song_exists,
}
use yes.Handlers.Playlists.{
  PlaylistCommand, create_of, delete_of, add_of, remove_of, info_of, my_of, Info, info_failed,
  no_results, results, Response, handle_playlist, created, under_limit, create_playlist_handler,
  written, if_owner, delete_playlist_handler, add_first, add_parts, add_to_playlist_handler,
  remove_identified, remove_parts, remove_from_playlist_handler, split_two, identified, song_of,
  shortened,
}

module _ {S : Type 0} (c : Collection S) (j : String) (p : Playlist) where
  -- The playlist is there and as it was.
  IsKept : S → Type 0
  IsKept s = c.find_one j s ≡ some p

  written-IsKept :
      (error key : String) (names : List String) (s : S) (o : Option S)
      → IsKept s
      → ((s' : S) → o ≡ some s' → IsKept s')
      → IsKept (written c error key names s o).0
  unfolding written
  written-IsKept error key names s none here next = here
  written-IsKept error key names s (some s') here next = next s' refl

  found-IsKept :
      (user_id : ℤ) (s : S) (o : Option Playlist) (next : Playlist → S × Response)
      → IsKept s
      → ((q : Playlist) → o ≡ some q → int_eq q.user_id user_id ≡ true → IsKept (next q).0)
      → IsKept (if_owner c user_id s o next).0
  unfolding if_owner
  found-IsKept user_id s none next here later = here
  found-IsKept user_id s (some q) next here later = elim (Bool-cases (int_eq q.user_id user_id)) [
    | inl own ↦ rw own (later q refl own)
    | inr other ↦ rw other here
  ]

  -- The owner's next step acts on another playlist.
  if_owner-IsKept :
      (user_id : ℤ) (id : String) (s : S) (next : Playlist → S × Response)
      → IsKept s
      → int_eq p.user_id user_id ≡ false
      → (str_eq id j ≡ false → (q : Playlist) → IsKept (next q).0)
      → IsKept (if_owner c user_id s (get_playlist c id s) next).0
  unfolding get_playlist IsKept
  if_owner-IsKept user_id id s next here other later =
      found-IsKept user_id s (c.find_one id s) next here (λ q found own.
        elim (Bool-cases (str_eq id j)) [
          | inr apart ↦ later apart q
          | inl same ↦ absurd (ground (arith, eq_iff id j, here, found, other, own))
        ])

  delete-IsKept :
      (user_id : ℤ) (id : String) (s s' : S)
      → IsKept s
      → str_eq id j ≡ false
      → delete_playlist c id user_id s ≡ some s'
      → IsKept s'
  unfolding delete_playlist IsKept
  delete-IsKept user_id id s s' here apart e =
      ground (arith, c.find-delete_one id j user_id s s' e, here)

  add-IsKept :
      (id : String) (song : Song) (s s' : S)
      → IsKept s
      → str_eq id j ≡ false
      → add_song_to_playlist c id song s ≡ some s'
      → IsKept s'
  unfolding add_song_to_playlist IsKept
  add-IsKept id song s s' here apart e = elim (Bool-cases (song_exists c id song.track_id s)) [
    | inl old ↦ ground (arith, here)
    | inr fresh ↦ ground (arith, c.find-push_song id j song s s' (ground arith), here)
  ]

  remove-IsKept :
      (id track_id : String) (s s' : S)
      → IsKept s
      → str_eq id j ≡ false
      → remove_song_from_playlist c id track_id s ≡ some s'
      → IsKept s'
  unfolding remove_song_from_playlist IsKept
  remove-IsKept id track_id s s' here apart e = elim (Bool-cases (song_exists c id track_id s)) [
    | inl old ↦ ground (arith, c.find-pull_songs id j track_id s s' (ground arith), here)
    | inr fresh ↦ ground (arith, here)
  ]

  insert-IsKept :
      (user_id : ℤ) (name id : String) (s : S)
      → IsKept s
      → str_eq id j ≡ false
      → IsKept (created c name s (create_playlist c id name user_id s)).0
  unfolding created create_playlist IsKept
  insert-IsKept user_id name id s here apart =
      let fresh : Playlist = record { id = id; name = name; user_id = user_id; songs = [] } in
      elim (Option-cases (c.insert_one fresh s)) [
        | inl e ↦ ground (arith, here)
        | inr (s', e) ↦ ground (arith, c.find-insert_one fresh j s s' e, here)
      ]

  limit-IsKept :
      (user_id : ℤ) (args id : String) (s : S) (playlists : Option (List Playlist))
      → IsKept s
      → str_eq id j ≡ false
      → IsKept (under_limit c user_id args id s playlists).0
  unfolding under_limit
  limit-IsKept user_id args id s none here apart = here
  limit-IsKept user_id args id s (some playlists) here apart =
      elim (Bool-cases (ltb (length playlists) 10)) [
        | inl less ↦ rw less (insert-IsKept user_id (shortened args) id s here apart)
        | inr full ↦ rw full here
      ]

  create-IsKept :
      (user_id : ℤ) (args id : String) (cursor : Option (List (Option Playlist))) (s : S)
      → IsKept s
      → str_eq id j ≡ false
      → IsKept (create_playlist_handler c user_id args cursor id s).0
  unfolding create_playlist_handler
  create-IsKept user_id args id cursor s here apart = elim (Bool-cases (str_eq args "")) [
    | inl is_empty ↦ rw is_empty here
    | inr given ↦ rw given (limit-IsKept user_id args id s (get_user_playlists cursor) here apart)
  ]

  delete_handler-IsKept :
      (user_id : ℤ) (args : String) (s : S)
      → IsKept s
      → int_eq p.user_id user_id ≡ false
      → IsKept (delete_playlist_handler c user_id args s).0
  unfolding delete_playlist_handler
  delete_handler-IsKept user_id args s here other = elim (Bool-cases (str_eq args "")) [
    | inl is_empty ↦ rw is_empty here
    | inr given ↦ rw given (
        if_owner-IsKept user_id args s _ here other (λ apart q.
          written-IsKept "playlist_delete_error" "playlist_deleted" (q.name ∷ []) s
            (delete_playlist c args user_id s) here
            (λ s' e. delete-IsKept user_id args s s' here apart e)))
  ]

  first-IsKept :
      (id : String) (q : Playlist) (s : S) (info : Info)
      → IsKept s
      → str_eq id j ≡ false
      → IsKept (add_first c id q s info).0
  unfolding add_first
  first-IsKept id q s info_failed here apart = here
  first-IsKept id q s no_results here apart = here
  first-IsKept id q s (results []) here apart = here
  first-IsKept id q s (results (t ∷ tracks)) here apart =
      written-IsKept "playlist_add_error" "playlist_song_added" (t.name ∷ q.name ∷ []) s
        (add_song_to_playlist c id (song_of t) s) here
        (λ s' e. add-IsKept id (song_of t) s s' here apart e)

  add_parts-IsKept :
      (user_id : ℤ) (is_valid : Bool) (info : Info) (s : S) (parts : Option (String × String))
      → IsKept s
      → int_eq p.user_id user_id ≡ false
      → IsKept (add_parts c user_id is_valid info s parts).0
  unfolding add_parts
  add_parts-IsKept user_id is_valid info s none here other = here
  add_parts-IsKept user_id false info s (some (id, url)) here other =
      if_owner-IsKept user_id id s _ here other (λ apart q. here)
  add_parts-IsKept user_id true info s (some (id, url)) here other =
      if_owner-IsKept user_id id s _ here other (λ apart q. first-IsKept id q s info here apart)

  identified-IsKept :
      (id : String) (q : Playlist) (s : S) (track : Option String)
      → IsKept s
      → str_eq id j ≡ false
      → IsKept (remove_identified c id q s track).0
  unfolding remove_identified
  identified-IsKept id q s none here apart = here
  identified-IsKept id q s (some track_id) here apart = elim (Bool-cases (str_eq track_id "")) [
    | inl is_empty ↦ rw is_empty here
    | inr given ↦ rw given (
        written-IsKept "playlist_remove_error" "playlist_song_removed" (q.name ∷ []) s
          (remove_song_from_playlist c id track_id s) here
          (λ s' e. remove-IsKept id track_id s s' here apart e))
  ]

  remove_parts-IsKept :
      (user_id : ℤ) (s : S) (parts : Option (String × String))
      → IsKept s
      → int_eq p.user_id user_id ≡ false
      → IsKept (remove_parts c user_id s parts).0
  unfolding remove_parts
  remove_parts-IsKept user_id s none here other = here
  remove_parts-IsKept user_id s (some (id, identifier)) here other =
      if_owner-IsKept user_id id s _ here other (λ apart q.
        identified-IsKept id q s (identified identifier (atoi identifier) q.songs) here apart)

  -- The command is not the owner's, and a new playlist gets another id.
  abbrev pub IsForeign : ℤ × PlaylistCommand → Type 0
  IsForeign (user_id, create_of args cursor id) =
      (int_eq p.user_id user_id ≡ false) × (str_eq id j ≡ false)
  IsForeign (user_id, _) = (int_eq p.user_id user_id ≡ false) × Unit

  handle-IsKept :
      (user_id : ℤ) (command : PlaylistCommand) (s : S)
      → IsKept s
      → IsForeign (user_id, command)
      → IsKept (handle_playlist c user_id command s).0
  unfolding handle_playlist add_to_playlist_handler remove_from_playlist_handler
  handle-IsKept user_id (create_of args cursor id) s here f =
      create-IsKept user_id args id cursor s here f.1
  handle-IsKept user_id (delete_of args) s here f = delete_handler-IsKept user_id args s here f.0
  handle-IsKept user_id (add_of args is_valid info) s here f =
      add_parts-IsKept user_id is_valid info s (split_two args) here f.0
  handle-IsKept user_id (remove_of args) s here f =
      remove_parts-IsKept user_id s (split_two args) here f.0
  handle-IsKept user_id (info_of args owner) s here f = here
  handle-IsKept user_id (my_of cursor) s here f = here

-- The commands of several users in order.
unfoldable pub handle_all : {S : Type 0} → Collection S → List (ℤ × PlaylistCommand) → S → S
handle_all c [] s = s
handle_all c ((user_id, command) ∷ commands) s =
    handle_all c commands (handle_playlist c user_id command s).0

-- A playlist stays as it is under any commands of users who do not own it, if the ids that are generated
-- for their new playlists are not its id.
pub get_playlist-handle_all :
    {S : Type 0} (c : Collection S) (j : String) (p : Playlist)
    (commands : List (ℤ × PlaylistCommand)) (s : S)
    → get_playlist c j s ≡ some p
    → All (IsForeign c j p) commands
    → get_playlist c j (handle_all c commands s) ≡ some p
unfolding get_playlist handle_all IsKept
get_playlist-handle_all c j p [] s here f = here
get_playlist-handle_all c j p ((user_id, command) ∷ commands) s here f =
    get_playlist-handle_all c j p commands (handle_playlist c user_id command s).0
      (handle-IsKept c j p user_id command s here f.0) f.1
