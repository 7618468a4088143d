-- ===== src/Downloads/VideoInfo.antt =====
-- Which video GetInfo of src/core/dl/youtube.go gives for a link, and which queries a service accepts.
use mathlib.Core.Path.{subst}
use yes.Prelude.{
  str_eq, List, [], ◌∷◌, Option, none, some, All, Bool-cases, inl, inr, eq_iff, sym, ap, ◌∙◌, true,
  false, ◌||◌, ◌⊎◌, ◌++◌, ◌≢◌, refl, String, ◌≡◌, arith,
}
use yes.Track.{MusicTrack}
use yes.Downloads.{Got, got, failed}
use yes.Downloads.Links.{joined, is_tail, is_valid_query, clear_query}
use yes.Downloads.VideoIds.{is_id, short_link, normalized_short, video_id_of_link, id-ne-empty}
use yes.Downloads.SearchPage.{Json, search_youtube, IsVideo, AreVideos, search_youtube-AreVideos}
use yes.Downloads.Youtube.{
  Config, Services, youtube_info, found_video, with_id, api_is_valid, is_valid_service,
  new_downloader_wrapper,
}

youtube_info-found_video :
    (s : Services) (id t : String)
    → is_id 11 id ≡ true
    → is_tail false t ≡ true
    → youtube_info s (short_link id t)
      ≡ found_video id (s.search_youtube (joined "https://www.youtube.com/watch?v=" id))
unfolding youtube_info
youtube_info-found_video s id t h k =
    let (valid, first, again) = video_id_of_link id t h k in
    ground (arith, valid, again, normalized_short id t h k, id-ne-empty id h)

-- No track has the id.
abbrev pub IsWithout : String → List MusicTrack → Type 0
IsWithout id tracks = All (λ track. track.id ≢ id) tracks

-- The first track with the id stands behind tracks without it.
abbrev pub IsFirst : String → MusicTrack → List MusicTrack → Type 0
IsFirst id track tracks =
    (before : List MusicTrack) × (after : List MusicTrack) × (tracks ≡ before ++ track ∷ after)
    × IsWithout id before
    × (track.id ≡ id)

-- What is given for the id when the search gives an answer: its error, the first track with the id alone, or an
-- error if there is none.
unfoldable pub IsChosen : String → Got (List MusicTrack) → Got (List MusicTrack) → Type 0
IsChosen id (failed why) given = given ≡ failed why
IsChosen id (got tracks) given =
    (IsWithout id tracks × (given ≡ failed "no video results were found"))
    ⊎ ((track : MusicTrack) × IsFirst id track tracks × (given ≡ got (track ∷ [])))

with_id_cases :
    (id : String) (tracks : List MusicTrack)
    → (IsWithout id tracks × (with_id id tracks ≡ none))
      ⊎ ((track : MusicTrack) × IsFirst id track tracks × (with_id id tracks ≡ some track))
unfolding with_id
with_id_cases id [] = inl (tt, refl)
with_id_cases id (x ∷ tracks) = elim (Bool-cases (str_eq x.id id)) [
  | inl same ↦ inr (x, ([], tracks, refl, tt, (eq_iff x.id id).0 same), ground (arith, same))
  | inr differs ↦
      let other : x.id ≢ id = (λ e. ground (arith, eq_iff x.id id, differs, e)) in
      elim (with_id_cases id tracks) [
        | inl (none_of, e) ↦ inl ((other, none_of), ground (arith, differs, e))
        | inr (track, (before, after, split, without, own), e) ↦ inr (
          track,
          (x ∷ before, after, ap (λ l. x ∷ l) split, (other, without), own),
          ground (arith, differs, e),
        )
      ]
]

found_video-IsChosen :
    (id : String) (answer : Got (List MusicTrack)) → IsChosen id answer (found_video id answer)
unfolding found_video IsChosen
found_video-IsChosen id (failed why) = refl
found_video-IsChosen id (got tracks) = elim (with_id_cases id tracks) [
  | inl (without, e) ↦ inl (without, ground (arith, e))
  | inr (track, first, e) ↦ inr (track, first, ground (arith, e))
]

-- For the short link of a video, with whatever behind the id after `?` or `#` on the same line, GetInfo
-- searches for the normal link of the video. It gives the error of the search, or of the tracks that are found the
-- first one whose id is that of the video, alone, or an error if none of them has this id.
pub youtube_info-short_link :
    (s : Services) (id t : String)
    → is_id 11 id ≡ true
    → is_tail false t ≡ true
    → IsChosen id
        (s.search_youtube (joined "https://www.youtube.com/watch?v=" id))
        (youtube_info s (short_link id t))
youtube_info-short_link s id t h k =
    subst (IsChosen id (s.search_youtube (joined "https://www.youtube.com/watch?v=" id)))
      (sym (youtube_info-found_video s id t h k))
      (found_video-IsChosen id (s.search_youtube (joined "https://www.youtube.com/watch?v=" id)))

-- A track of the video with an id: its own link, on YouTube.
unfoldable pub IsLinked : String → MusicTrack → Type 0
IsLinked id track = (track.id ≡ id) × IsVideo track

-- The same of the track, or of the tracks, that there are.
IsFound : String → Option MusicTrack → Type 0
IsFound id none = Unit
IsFound id (some track) = IsLinked id track

AreLinked : String → Got (List MusicTrack) → Type 0
AreLinked id (failed why) = Unit
AreLinked id (got tracks) = All (IsLinked id) tracks

with_id-IsFound :
    (id : String) (tracks : List MusicTrack) → All IsVideo tracks → IsFound id (with_id id tracks)
unfolding with_id IsFound IsLinked
with_id-IsFound id [] h = tt
with_id-IsFound id (x ∷ tracks) (h, hs) = elim (Bool-cases (str_eq x.id id)) [
  | inl same ↦ rw same ((eq_iff x.id id).0 same, h)
  | inr differs ↦ rw differs (with_id-IsFound id tracks hs)
]

one_found :
    (id : String) (track : Option MusicTrack)
    → IsFound id track
    → AreLinked id
        (elim track [ none ↦ failed "no video results were found" | some t ↦ got (t ∷ []) ])
unfolding AreLinked IsFound
one_found id none h = tt
one_found id (some track) h = (h, tt)

found_video-AreLinked :
    (id : String) (answer : Got (List MusicTrack))
    → AreVideos answer
    → AreLinked id (found_video id answer)
unfolding found_video AreVideos AreLinked
found_video-AreLinked id (failed why) h = tt
found_video-AreLinked id (got tracks) h =
    one_found id (with_id id tracks) (with_id-IsFound id tracks h)

-- If GetInfo, with the search page of YouTube for its search, gives tracks for the short link of a video, then
-- they have the id of the video, its normal link and the name of the platform.
pub video_of_link :
    (s : Services) (page : Got Json) (id t : String) (tracks : List MusicTrack)
    → is_id 11 id ≡ true
    → is_tail false t ≡ true
    → s.search_youtube (joined "https://www.youtube.com/watch?v=" id) ≡ search_youtube page
    → youtube_info s (short_link id t) ≡ got tracks
    → All (IsLinked id) tracks
unfolding AreLinked
video_of_link s page id t tracks h k searched e =
    subst (AreLinked id)
      (sym (ap (found_video id) searched) ∙ (sym (youtube_info-found_video s id t h k) ∙ e))
      (found_video-AreLinked id (search_youtube page) (search_youtube-AreVideos page))

-- A wrapper accepts a query exactly if it is a valid link of YouTube, when it is cleared, or a valid query
-- of the API, when it is trimmed, whatever the default service is.
pub is_valid-new_downloader_wrapper :
    (conf : Config) (s : Services) (query : String)
    → is_valid_service conf s (new_downloader_wrapper conf s query) ≡ (
        is_valid_query (clear_query s.trim_space query) || api_is_valid conf s (s.trim_space query))
unfolding is_valid_service new_downloader_wrapper
is_valid-new_downloader_wrapper conf s query = ground arith
