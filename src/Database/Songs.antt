-- ===== src/Database/Songs.antt =====
-- What a playlist holds after its songs change.
use yes.Prelude.{
  ◌≡◌, refl, false, not, ◌&&◌, ◌||◌, List, [], ◌∷◌, ◌++◌, none, some, String, str_eq, str_eq_refl,
  eq_iff, arith, if◌then◌else◌, Bool-cases, inl, inr,
}
use yes.Database.Playlists.{
  Song, Playlist, Collection, pushed, pulled, songs_without, has_track, get_playlist, song_exists,
  add_song_to_playlist, remove_song_from_playlist,
}

-- No two songs have one track.
abbrev pub HasDistinctTracks : List Song → Type 0
HasDistinctTracks [] = Unit
HasDistinctTracks (song ∷ songs) = (has_track song.track_id songs ≡ false) × HasDistinctTracks songs

has_track-append_one :
    (t : String) (songs : List Song) (song : Song)
    → has_track t (songs ++ song ∷ []) ≡ (has_track t songs || str_eq song.track_id t)
unfolding has_track
has_track-append_one t [] song = ground arith
has_track-append_one t (s ∷ songs) song = ground (arith, has_track-append_one t songs song)

append_one-HasDistinctTracks :
    (songs : List Song) (song : Song)
    → HasDistinctTracks songs
    → has_track song.track_id songs ≡ false
    → HasDistinctTracks (songs ++ song ∷ [])
unfolding has_track
append_one-HasDistinctTracks [] song d fresh = (refl, tt)
append_one-HasDistinctTracks (s ∷ songs) song d fresh = (
  ground (
    arith,
    has_track-append_one s.track_id songs song,
    eq_iff s.track_id song.track_id,
    eq_iff song.track_id s.track_id,
  ),
  append_one-HasDistinctTracks songs song d.1 (ground arith),
)

has_track-songs_without :
    (t track_id : String) (songs : List Song)
    → has_track t (songs_without track_id songs) ≡ (not (str_eq track_id t) && has_track t songs)
unfolding has_track
has_track-songs_without t track_id [] = ground arith
has_track-songs_without t track_id (s ∷ songs) = ground (
  arith,
  eq_iff s.track_id track_id,
  eq_iff s.track_id t,
  eq_iff track_id t,
  has_track-songs_without t track_id songs,
)

songs_without-HasDistinctTracks :
    (track_id : String) (songs : List Song)
    → HasDistinctTracks songs
    → HasDistinctTracks (songs_without track_id songs)
songs_without-HasDistinctTracks track_id [] d = tt
songs_without-HasDistinctTracks track_id (s ∷ songs) d = ground (
  arith,
  has_track-songs_without s.track_id track_id songs,
  songs_without-HasDistinctTracks track_id songs d.1,
)

module _ {S : Type 0} (c : Collection S) where
  song_exists-found :
      (id t : String) (p : Playlist) (s : S)
      → c.find_one id s ≡ some p
      → song_exists c id t s ≡ has_track t p.songs
  unfolding song_exists
  song_exists-found id t p s e = ground arith

  -- After `AddSongToPlaylist` without an error, a playlist that was found still is: its songs are those
  -- of before, with the new one at the end if its track was not among them, and still have different
  -- tracks if they did. A playlist with another id stays as it is.
  pub songs-add_song_to_playlist :
      (id : String) (song : Song) (p : Playlist) (s s' : S)
      → get_playlist c id s ≡ some p
      → add_song_to_playlist c id song s ≡ some s'
      → HasDistinctTracks p.songs
      → (get_playlist c id s' ≡ some (if has_track song.track_id p.songs then p else pushed song p))
        × HasDistinctTracks (if has_track song.track_id p.songs then p else pushed song p).songs
        × ((j : String) → str_eq id j ≡ false → get_playlist c j s' ≡ get_playlist c j s)
  unfolding get_playlist add_song_to_playlist
  songs-add_song_to_playlist id song p s s' e ok d =
      let known = song_exists-found id song.track_id p s e in
      elim (Bool-cases (has_track song.track_id p.songs)) [
        | inl old ↦ (ground arith, ground arith, λ j other. ground arith)
        | inr fresh ↦ (
          ground (arith, c.find-push_song id id song s s' (ground arith), str_eq_refl id),
          ground (arith, append_one-HasDistinctTracks p.songs song d fresh),
          λ j other. ground (arith, c.find-push_song id j song s s' (ground arith)),
        )
      ]

  -- `RemoveSongFromPlaylist` fails when the playlist has no such track. Otherwise, if MongoDB does not
  -- fail, the playlist has the songs of before without those of the track, which it then does not have,
  -- and a playlist with another id stays as it is.
  pub songs-remove_song_from_playlist :
      (id track_id : String) (p : Playlist) (s : S)
      → get_playlist c id s ≡ some p
      → (has_track track_id p.songs ≡ false → remove_song_from_playlist c id track_id s ≡ none)
        × ((s' : S)
            → remove_song_from_playlist c id track_id s ≡ some s'
            → (get_playlist c id s' ≡ some (pulled track_id p))
              × (song_exists c id track_id s' ≡ false)
              × ((j : String) → str_eq id j ≡ false → get_playlist c j s' ≡ get_playlist c j s))
  unfolding get_playlist remove_song_from_playlist
  songs-remove_song_from_playlist id track_id p s e =
      let known = song_exists-found id track_id p s e in
      (
        λ missing. ground arith,
        λ s' ok.
            let done : c.pull_songs id track_id s ≡ some s' = ground arith in
            let found : c.find_one id s' ≡ some (pulled track_id p) =
              ground (arith, c.find-pull_songs id id track_id s s' done, str_eq_refl id) in
            (
              found,
              ground (
                arith,
                song_exists-found id track_id (pulled track_id p) s' found,
                has_track-songs_without track_id track_id p.songs,
                str_eq_refl track_id,
              ),
              λ j other. ground (arith, c.find-pull_songs id j track_id s s' done),
            ),
      )
