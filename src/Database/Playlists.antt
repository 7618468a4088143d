-- ===== src/Database/Playlists.antt =====
-- src/core/db/playlist.go: the playlists of users. The collection is MongoDB's: its states, its calls and
-- what the documentation of MongoDB says of them are an interface.
use mathlib.Core.Option
use yes.Prelude.{
  ◌≡◌, Bool, false, not, ◌||◌, List, [], ◌∷◌, ◌++◌, Option, none, some, String, ℤ, str_eq, int_eq,
  if◌then◌else◌,
}

pub record Song : Type 0 where
  pub url : String
  pub name : String
  pub track_id : String
  pub duration : ℤ
  pub platform : String

pub record Playlist : Type 0 where
  pub id : String
  pub name : String
  pub user_id : ℤ
  pub songs : List Song

-- `$push` and `$pull` on the songs of a document.
abbrev pub pushed : Song → Playlist → Playlist
pushed song p = record p { songs = p.songs ++ song ∷ [] }

abbrev pub songs_without : String → List Song → List Song
songs_without track_id [] = []
songs_without track_id (song ∷ songs) =
    let rest = songs_without track_id songs in
    if str_eq song.track_id track_id then rest else song ∷ rest

abbrev pub pulled : String → Playlist → Playlist
pulled track_id p = record p { songs = songs_without track_id p.songs }

abbrev pub unless_owned : ℤ → Option Playlist → Option Playlist
unless_owned user_id none = none
unless_owned user_id (some p) = if int_eq p.user_id user_id then none else some p

-- The collection `playlists`. `find_one` gives no document for `ErrNoDocuments` and for any other error;
-- a write gives no state for an error. A write that matches no document changes nothing.
pub record Collection (S : Type 0) : Type 0 where
  pub find_one : String → S → Option Playlist
  pub insert_one : Playlist → S → Option S
  pub push_song : String → Song → S → Option S
  pub pull_songs : String → String → S → Option S
  pub delete_one : String → ℤ → S → Option S
  pub find-insert_one :
      (p : Playlist) (j : String) (s s' : S)
      → insert_one p s ≡ some s'
      → find_one j s' ≡ (if str_eq p.id j then some p else find_one j s)
  pub find-push_song :
      (id j : String) (song : Song) (s s' : S)
      → push_song id song s ≡ some s'
      → find_one j s'
        ≡ (if str_eq id j then Option.map (pushed song) (find_one j s) else find_one j s)
  pub find-pull_songs :
      (id j track_id : String) (s s' : S)
      → pull_songs id track_id s ≡ some s'
      → find_one j s'
        ≡ (if str_eq id j then Option.map (pulled track_id) (find_one j s) else find_one j s)
  pub find-delete_one :
      (id j : String) (user_id : ℤ) (s s' : S)
      → delete_one id user_id s ≡ some s'
      → find_one j s' ≡ (if str_eq id j then unless_owned user_id (find_one j s) else find_one j s)

-- The loop of `songExists`.
unfoldable pub has_track : String → List Song → Bool
has_track track_id [] = false
has_track track_id (song ∷ songs) = str_eq song.track_id track_id || has_track track_id songs

module _ {S : Type 0} (c : Collection S) where
  -- `CreatePlaylist`; `id` is the id that was generated.
  unfoldable pub create_playlist : String → String → ℤ → S → Option (S × String)
  create_playlist id name user_id s =
      elim (c.insert_one (record { id = id; name = name; user_id = user_id; songs = [] }) s) [
        | none ↦ none
        | some s' ↦ some (s', id)
      ]

  unfoldable pub get_playlist : String → S → Option Playlist
  get_playlist id s = c.find_one id s

  unfoldable pub delete_playlist : String → ℤ → S → Option S
  delete_playlist id user_id s = c.delete_one id user_id s

  unfoldable pub song_exists : String → String → S → Bool
  unfolding has_track
  song_exists id track_id s = elim (c.find_one id s) [
    | none ↦ false
    | some p ↦ has_track track_id p.songs
  ]

  unfoldable pub add_song_to_playlist : String → Song → S → Option S
  unfolding song_exists
  add_song_to_playlist id song s =
      if song_exists id song.track_id s then some s else c.push_song id song s

  -- An error of either kind is `none`.
  unfoldable pub remove_song_from_playlist : String → String → S → Option S
  unfolding song_exists
  remove_song_from_playlist id track_id s =
      if not (song_exists id track_id s) then none else c.pull_songs id track_id s

-- `GetUserPlaylists`: what the cursor decodes, `none` where decoding fails, or no cursor.
collected : List (Option Playlist) → Option (List Playlist)
collected [] = some []
collected (none ∷ ps) = none
collected (some p ∷ ps) = elim (collected ps) [ none ↦ none | some rest ↦ some (p ∷ rest) ]

unfoldable pub get_user_playlists : Option (List (Option Playlist)) → Option (List Playlist)
unfolding collected
get_user_playlists none = none
get_user_playlists (some cursor) = collected cursor
