-- ===== src/Tests/Playlists.antt =====
-- Playlists in a collection that is an association list by id.
use mathlib.Core.Option
use yes.Prelude.{
  ◌≡◌, refl, true, List, [], ◌∷◌, Option, none, some, String, ℤ, pos, str_eq, eq_iff, eq_String,
  int_eq, arith, if◌then◌else◌, Option-cases, inl, inr,
}
use yes.Prelude.Assoc.{Assoc, lookup, insert, remove, lookup-insert, lookup-remove}
use yes.Database.Playlists.{
  Song, Playlist, Collection, pushed, pulled, unless_owned, has_track, get_playlist, song_exists,
  remove_song_from_playlist,
}
use yes.Prelude.Decimal.{atoi}
use yes.Handlers.Playlists.{
  PlaylistCommand, create_of, delete_of, add_of, remove_of, results, handle_playlist, split_two,
  identified,
}
use yes.Handlers.Ownership.{handle_all, get_playlist-handle_all}

abbrev pub Table : Type 0
Table = Assoc String Playlist

pub inserted : Playlist → Table → Option Table
inserted p s = elim (lookup p.id s) [ some _ ↦ none | none ↦ some (insert p.id p s) ]

-- The document with the id, changed by a function.
pub changed : (Playlist → Playlist) → String → Table → Option Table
changed f id s = elim (lookup id s) [ none ↦ some s | some p ↦ some (insert id (f p) s) ]

pub deleted : String → ℤ → Table → Option Table
deleted id user_id s = elim (lookup id s) [
  | none ↦ some s
  | some p ↦ if int_eq p.user_id user_id then some (remove id s) else some s
]

pub lookup-inserted :
    (p : Playlist) (j : String) (s s' : Table)
    → inserted p s ≡ some s'
    → lookup j s' ≡ (if str_eq p.id j then some p else lookup j s)
unfolding inserted
lookup-inserted p j s s' e = ground (arith, lookup-insert p.id j p s)

pub lookup-changed :
    (f : Playlist → Playlist) (id j : String) (s s' : Table)
    → changed f id s ≡ some s'
    → lookup j s' ≡ (if str_eq id j then Option.map f (lookup j s) else lookup j s)
unfolding changed
lookup-changed f id j s s' e = elim (Option-cases (lookup id s)) [
  | inl missing ↦ ground (arith, eq_iff id j)
  | inr (p, found) ↦ ground (arith, eq_iff id j, lookup-insert id j (f p) s)
]

pub lookup-deleted :
    (id j : String) (user_id : ℤ) (s s' : Table)
    → deleted id user_id s ≡ some s'
    → lookup j s' ≡ (if str_eq id j then unless_owned user_id (lookup j s) else lookup j s)
unfolding deleted
lookup-deleted id j user_id s s' e = elim (Option-cases (lookup id s)) [
  | inl missing ↦ ground (arith, eq_iff id j)
  | inr (p, found) ↦ ground (arith, eq_iff id j, lookup-remove id j s)
]

abbrev pub table : Collection Table
table = record {
  find_one = lookup;
  insert_one = inserted;
  push_song = λ id song. changed (pushed song) id;
  pull_songs = λ id track_id. changed (pulled track_id) id;
  delete_one = deleted;
  find-insert_one = lookup-inserted;
  find-push_song = λ id j song. lookup-changed (pushed song) id j;
  find-pull_songs = λ id j track_id. lookup-changed (pulled track_id) id j;
  find-delete_one = lookup-deleted;
}

abbrev pub song : String → Song
song track_id = record {
  url = "";
  name = track_id;
  track_id = track_id;
  duration = pos 200;
  platform = "youtube";
}

abbrev pub favourites : List Song → Playlist
favourites songs = record { id = "tgpl_1"; name = "favourites"; user_id = pos 7; songs = songs }

abbrev pub before : Table
before = ("tgpl_1", favourites (song "a" ∷ song "b" ∷ [])) ∷ []

-- Another user tries to delete the playlist, to empty it, and to add to it.
abbrev foreign : List (ℤ × PlaylistCommand)
foreign =
    (pos 8, delete_of "tgpl_1")
    ∷ (pos 8, remove_of "tgpl_1 1")
    ∷ (pos 8, add_of "tgpl_1 https" true (results []))
    ∷ (pos 8, create_of "mine" (some []) "tgpl_2")
    ∷ []

get_playlist-handle_all_example :
    get_playlist table "tgpl_1" (handle_all table foreign before)
    ≡ some (favourites (song "a" ∷ song "b" ∷ []))
unfolding get_playlist lookup
get_playlist-handle_all_example =
    get_playlist-handle_all table "tgpl_1" (favourites (song "a" ∷ song "b" ∷ [])) foreign before
      refl ((refl, tt), ((refl, tt), ((refl, tt), ((refl, refl), tt))))

-- The owner removes the second song by its number.
second_removed :
    (handle_playlist table (pos 7) (remove_of "tgpl_1 2") before).0
    ≡ ("tgpl_1", favourites (song "a" ∷ [])) ∷ []
unfolding handle_playlist get_playlist lookup remove_song_from_playlist changed song_exists insert
    atoi split_two identified has_track
second_removed = refl
