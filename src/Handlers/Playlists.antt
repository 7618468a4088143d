-- ===== src/Handlers/Playlists.antt =====
-- src/handlers/playlist.go: the commands on the playlists of users. The language of a reply is left out. An argument
-- is the text behind the command, without the spaces around it.
use Prim.Native.Char.{code}
use yes.Prelude.{
  ℕ, zero, suc, Bool, not, ◌||◌, List, [], ◌∷◌, Option, none, some, String, ℤ, pos, negsuc, ltb,
  nat_eq, int_eq, str_eq, length, if◌then◌else◌,
}
use yes.Prelude.Decimal.{atoi}
use yes.Track.{MusicTrack}
use yes.Database.Playlists.{
  Song, Playlist, Collection, create_playlist, get_playlist, delete_playlist, add_song_to_playlist,
  remove_song_from_playlist, get_user_playlists,
}

-- The key of the text and the names that it shows, or a panic.
pub data Response : Type 0 where
  replies : String → List String → Response
  panics : Response

-- `strings.SplitN(args, " ", 2)`, if it has two parts.
unfoldable pub split_two : String → Option (String × String)
split_two String.[] = none
split_two (String.◌∷◌ c s) =
    let later = split_two s in
    if nat_eq (code c) 32
    then some ("", s)
    else elim later [ none ↦ none | some parts ↦ some (String.◌∷◌ c parts.0, parts.1) ]

-- The first runes of a text, and how many it has.
unfoldable pub runes : String → ℕ
runes String.[] = 0
runes (String.◌∷◌ c s) = suc (runes s)

unfoldable pub first_runes : ℕ → String → String
first_runes zero s = ""
first_runes (suc n) String.[] = ""
first_runes (suc n) (String.◌∷◌ c s) = String.◌∷◌ c (first_runes n s)

unfoldable pub shortened : String → String
unfolding runes first_runes
shortened args = if ltb 40 (runes args) then first_runes 40 args else args

-- What the downloader answers: an error, no results, or the list of results.
pub data Info : Type 0 where
  info_failed no_results : Info
  results : List MusicTrack → Info

unfoldable pub song_of : MusicTrack → Song
song_of t = record {
  url = t.url;
  name = t.name;
  track_id = t.id;
  duration = t.duration;
  platform = t.platform;
}

-- The track id of a song by its number, from 1, and by its link or track id.
nth_track : ℕ → List Song → String
nth_track n [] = ""
nth_track zero (song ∷ songs) = song.track_id
nth_track (suc n) (song ∷ songs) = nth_track n songs

find_track_id : String → List Song → String
find_track_id identifier [] = ""
find_track_id identifier (song ∷ songs) =
    if str_eq song.url identifier || str_eq song.track_id identifier
    then song.track_id
    else find_track_id identifier songs

-- `none` is a number out of range.
unfoldable pub identified : String → Option ℤ → List Song → Option String
unfolding nth_track find_track_id
identified identifier none songs = some (find_track_id identifier songs)
identified identifier (some (negsuc n)) songs = none
identified identifier (some (pos zero)) songs = none
identified identifier (some (pos (suc n))) songs =
    if ltb n (length songs) then some (nth_track n songs) else none

-- What a command asks for beside the collection.
pub data PlaylistCommand : Type 0 where
  -- The playlists of the user, and the id that is generated.
  create_of : (args : String) → Option (List (Option Playlist)) → (id : String) → PlaylistCommand
  delete_of : (args : String) → PlaylistCommand
  -- Whether the link is valid, and what it stands for.
  add_of : (args : String) → (is_valid : Bool) → Info → PlaylistCommand
  remove_of : (args : String) → PlaylistCommand
  -- The first name of the owner.
  info_of : (args : String) → Option String → PlaylistCommand
  my_of : Option (List (Option Playlist)) → PlaylistCommand

song_names : List Song → List String
song_names [] = []
song_names (song ∷ songs) = song.name ∷ song_names songs

playlist_names : List Playlist → List String
playlist_names [] = []
playlist_names (p ∷ ps) = p.name ∷ playlist_names ps

unfoldable pub shown_playlists : Option (List Playlist) → Response
unfolding playlist_names
shown_playlists none = replies "playlist_fetch_error" []
shown_playlists (some []) = replies "playlist_no_playlists" []
shown_playlists (some (p ∷ ps)) = replies "playlist_my_playlists" (playlist_names (p ∷ ps))

unfoldable pub my_playlists_handler : Option (List (Option Playlist)) → Response
unfolding shown_playlists
my_playlists_handler cursor = shown_playlists (get_user_playlists cursor)

module _ {S : Type 0} (c : Collection S) where
  abbrev just : String → S → S × Response
  just key s = (s, replies key [])

  unfoldable pub created : String → S → Option (S × String) → S × Response
  created name s none = just "playlist_create_error" s
  created name s (some (s', id)) = (s', replies "playlist_created" (name ∷ id ∷ []))

  unfoldable pub under_limit : ℤ → String → String → S → Option (List Playlist) → S × Response
  unfolding created
  under_limit user_id args id s none = just "playlist_create_error" s
  under_limit user_id args id s (some playlists) =
      if not (ltb (length playlists) 10)
      then just "playlist_create_limit" s
      else created (shortened args) s (create_playlist c id (shortened args) user_id s)

  unfoldable pub create_playlist_handler :
      ℤ → String → Option (List (Option Playlist)) → String → S → S × Response
  unfolding under_limit
  create_playlist_handler user_id args cursor id s =
      if str_eq args ""
      then just "playlist_create_usage" s
      else under_limit user_id args id s (get_user_playlists cursor)

  -- A write to a playlist: an error leaves the collection.
  unfoldable pub written : String → String → List String → S → Option S → S × Response
  written error key names s none = just error s
  written error key names s (some s') = (s', replies key names)

  -- The playlist, if the user owns it.
  unfoldable pub if_owner : ℤ → S → Option Playlist → (Playlist → S × Response) → S × Response
  if_owner user_id s none next = just "playlist_not_found" s
  if_owner user_id s (some p) next =
      if not (int_eq p.user_id user_id) then just "playlist_not_owner" s else next p

  unfoldable pub delete_playlist_handler : ℤ → String → S → S × Response
  unfolding if_owner written
  delete_playlist_handler user_id args s =
      if str_eq args ""
      then just "playlist_delete_usage" s
      else if_owner user_id s (get_playlist c args s) (λ p.
        written "playlist_delete_error" "playlist_deleted" (p.name ∷ []) s
          (delete_playlist c args user_id s))

  unfoldable pub add_first : String → Playlist → S → Info → S × Response
  unfolding written song_of
  add_first id p s info_failed = just "play_fetch_error" s
  add_first id p s no_results = just "play_no_tracks_found" s
  add_first id p s (results []) = (s, panics)
  add_first id p s (results (t ∷ tracks)) =
      written "playlist_add_error" "playlist_song_added" (t.name ∷ p.name ∷ []) s
        (add_song_to_playlist c id (song_of t) s)

  unfoldable pub add_parts : ℤ → Bool → Info → S → Option (String × String) → S × Response
  unfolding if_owner add_first
  add_parts user_id is_valid info s none = just "playlist_add_usage" s
  add_parts user_id is_valid info s (some (id, url)) =
      if_owner user_id s (get_playlist c id s)
        (λ p. if not is_valid then just "play_invalid_url" s else add_first id p s info)

  unfoldable pub add_to_playlist_handler : ℤ → String → Bool → Info → S → S × Response
  unfolding add_parts
  add_to_playlist_handler user_id args is_valid info s =
      add_parts user_id is_valid info s (split_two args)

  unfoldable pub remove_identified : String → Playlist → S → Option String → S × Response
  unfolding written
  remove_identified id p s none = just "playlist_remove_invalid_index" s
  remove_identified id p s (some track_id) =
      if str_eq track_id ""
      then just "playlist_remove_song_not_found" s
      else written "playlist_remove_error" "playlist_song_removed" (p.name ∷ []) s
          (remove_song_from_playlist c id track_id s)

  unfoldable pub remove_parts : ℤ → S → Option (String × String) → S × Response
  unfolding if_owner remove_identified identified
  remove_parts user_id s none = just "playlist_remove_usage" s
  remove_parts user_id s (some (id, identifier)) =
      if_owner user_id s (get_playlist c id s)
        (λ p. remove_identified id p s (identified identifier (atoi identifier) p.songs))

  unfoldable pub remove_from_playlist_handler : ℤ → String → S → S × Response
  unfolding remove_parts
  remove_from_playlist_handler user_id args s = remove_parts user_id s (split_two args)

  unfoldable pub shown_info : Option String → Option Playlist → Response
  unfolding song_names
  shown_info owner none = replies "playlist_not_found" []
  shown_info none (some p) = replies "" []
  shown_info (some first_name) (some p) =
      replies "playlist_info" (p.name ∷ first_name ∷ song_names p.songs)

  unfoldable pub playlist_info_handler : String → Option String → S → Response
  unfolding shown_info
  playlist_info_handler args owner s =
      if str_eq args ""
      then replies "playlist_info_usage" []
      else shown_info owner (get_playlist c args s)

  -- A command of a user.
  unfoldable pub handle_playlist : ℤ → PlaylistCommand → S → S × Response
  unfolding create_playlist_handler delete_playlist_handler add_to_playlist_handler
      remove_from_playlist_handler playlist_info_handler my_playlists_handler
  handle_playlist user_id (create_of args cursor id) s =
      create_playlist_handler user_id args cursor id s
  handle_playlist user_id (delete_of args) s = delete_playlist_handler user_id args s
  handle_playlist user_id (add_of args is_valid info) s =
      add_to_playlist_handler user_id args is_valid info s
  handle_playlist user_id (remove_of args) s = remove_from_playlist_handler user_id args s
  handle_playlist user_id (info_of args owner) s = (s, playlist_info_handler args owner s)
  handle_playlist user_id (my_of cursor) s = (s, my_playlists_handler cursor)
