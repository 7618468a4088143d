-- ===== src/Tests/Links.antt =====
-- Links of videos, sizes of videos and speeds.
use yes.Prelude.{
  String, nat_eq, ◌*◌, if◌then◌else◌, All, ℕ, ◌<◌, ◌≤◌, ◌≡◌, refl, false, List, [], ◌∷◌, some, pos,
  arith,
}
use yes.Track.{MusicTrack}
use yes.ChatCache.{get_playing_track}
use yes.Playback.Speed.{
  Floats, nan, below_zero, ratio, audio_filters, change_speed, plays_at, HaveSpeed,
  change_speed_lem,
}
use yes.Downloads.{Got, got, failed}
use yes.Downloads.Links.{is_valid_query, extract_video_id, is_id_char, is_tail}
use yes.Downloads.VideoIds.{is_id, short_link}
use yes.Downloads.SearchPage.{
  Json, text, array, object, no_items, item, no_fields, field, search_youtube,
}
use yes.Downloads.VideoInfo.{IsChosen, IsLinked, video_of_link, youtube_info-short_link}
use yes.Downloads.Youtube.{Config, Services, youtube_info, found_video}
use yes.Downloads.Media.{Scaling, video_size}
use yes.Downloads.VideoSize.{IsFitting, video_size-IsFitting}
use yes.Tests.Data.{room, player}
use yes.Prelude.Assoc.{lookup}

abbrev video : MusicTrack
video = record {
  url = "https://www.youtube.com/watch?v=dQw4w9WgXcQ";
  name = "song";
  id = "dQw4w9WgXcQ";
  cover = "";
  duration = pos 213;
  platform = "youtube";
}

abbrev one_result : Services
one_result = record {
  trim_space = λ s. s;
  api_matches = λ query. false;
  search_youtube = λ query. got (video ∷ []);
  api_get_url = λ query. failed "";
  api_search = λ query. failed "";
  api_track = λ query. failed "";
  is_telegram_url = λ url. false;
  equal_fold = λ s t. false;
  process_spotify = λ track. failed "";
  download_file = λ url. failed "";
  yt_dlp = λ parameters. got "downloads/dQw4w9WgXcQ.m4a";
  is_missing = λ path. false;
  random_cookie = 0;
  random_fails = false;
}

abbrev settings : Config
settings = record {
  api_url = "https://api";
  api_key = "";
  default_service = "spotify";
  downloads_dir = "downloads";
  cookies_path = [];
  proxy = "";
}

youtube_info-short_link_example :
    IsChosen "dQw4w9WgXcQ"
      (got (video ∷ []))
      (youtube_info one_result (short_link "dQw4w9WgXcQ" "?si=1"))
unfolding is_id is_id_char is_tail
youtube_info-short_link_example = youtube_info-short_link one_result "dQw4w9WgXcQ" "?si=1" refl refl

found : found_video "dQw4w9WgXcQ" (got (video ∷ [])) ≡ got (video ∷ [])
unfolding found_video
found = refl

-- The conversions of a video that is as wide as it is high.
abbrev square : Scaling
square = record { height_for = λ w. w; width_for = λ h. h }

square_rounding : (n h : ℕ) → h < square.height_for n → square.width_for h ≤ n
square_rounding n h below = omega (arith, below)

video_size-IsFitting_example : IsFitting (video_size square (pos 1000, pos 1000))
video_size-IsFitting_example = video_size-IsFitting square (pos 1000, pos 1000) square_rounding

square_size : video_size square (pos 1000, pos 1000) ≡ (720, 720)
unfolding video_size
square_size = refl

-- The texts of some numbers, and exact inverses.
abbrev floats : Floats
floats = record {
  sprintf_f = λ x. elim x [
    | nan ↦ "NaN"
    | below_zero ↦ "-1.000000"
    | ratio n d ↦ if nat_eq (n * 2) (d * 3) then "1.500000" else "0.333333"
  ];
  one_over = λ x. elim x [ nan ↦ nan | below_zero ↦ below_zero | ratio n d ↦ ratio d n ];
}

-- Three times as fast: twice, and one and a half.
three_times : audio_filters floats (ratio 3 1) ≡ some ("atempo=2.0" ∷ "atempo=1.500000" ∷ [])
unfolding audio_filters
three_times = refl

-- What is not a number passes the guard.
not_a_number : audio_filters floats nan ≡ some ("atempo=NaN" ∷ [])
unfolding audio_filters
not_a_number = refl

change_speed_lem_example :
    (filters : List String) × (change_speed floats room (ratio 3 1) player
      ≡ plays_at "" false "0.333333" filters)
    × HaveSpeed floats 3 1 filters
unfolding get_playing_track lookup
change_speed_lem_example = change_speed_lem floats room 3 1 player refl (omega arith) (omega arith)

-- A page with one result inside a section.
abbrev page : Json
page = object (
    field "contents"
      (object (
        field "twoColumnSearchResultsRenderer"
          (object (
            field "primaryContents"
              (object (
                field "sectionListRenderer"
                  (object (
                    field "contents"
                      (array (
                        item
                          (object (
                            field "videoRenderer"
                              (object (
                                field "videoId" (text "dQw4w9WgXcQ") (
                                  field "lengthText"
                                    (object (field "simpleText" (text "3:33") no_fields))
                                    no_fields)))
                              no_fields))
                          no_items))
                      no_fields))
                  no_fields))
              no_fields))
          no_fields))
      no_fields)

abbrev page_read : Got Json
page_read = got page

abbrev by_page : Services
by_page = record one_result { search_youtube = λ query. search_youtube page_read }

abbrev first_video : MusicTrack
first_video = record video { name = "" }

video_of_link_example : All (IsLinked "dQw4w9WgXcQ") (first_video ∷ [])
unfolding is_id is_id_char is_tail youtube_info search_youtube is_valid_query short_link
    extract_video_id
video_of_link_example =
    video_of_link by_page page_read "dQw4w9WgXcQ" "?si=1" (first_video ∷ []) refl refl refl refl
