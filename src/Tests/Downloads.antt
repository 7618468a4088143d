-- ===== src/Tests/Downloads.antt =====
-- Durations and downloads.
use Prim.Native.String.{count, ◌++◌ as str_append}
use mathlib.Core.List.{Permᴰ}
use text.Mathlib.TextLemmas.{length-append}
use yes.Prelude.{
  zero, suc, ◌≡◌, ◌≢◌, refl, ap, true, false, [], ◌∷◌, none, some, String, pos, arith,
}
use yes.Track.{TrackInfo}
use yes.Downloads.{got}
use yes.Downloads.Durations.{sec_to_min, parse_duration, parse_duration-sec_to_min}
use yes.Downloads.Http.{Os, Transfer, Disk, download_file, send_request, responds}
use yes.Downloads.Ogg.{patches}
use yes.Downloads.Saving.{IsWhole, download_file-IsWhole}
use yes.Downloads.Spotify.{Files, Surroundings, process_spotify, process_spotify-order}

-- One hour, two minutes and three seconds.
parse_duration-sec_to_min_example : parse_duration (sec_to_min (pos 3723)) ≡ pos 3723
parse_duration-sec_to_min_example = parse_duration-sec_to_min 3723 (omega arith)

hour_text : sec_to_min (pos 3723) ≡ "1:02:03"
unfolding sec_to_min
hour_text = refl

abbrev spotify_song : TrackInfo
spotify_song = record {
  url = "https://open.spotify.com/track/1";
  cdn_url = "https://cdn";
  key = "00";
  name = "song";
  tc = "1";
  cover = "";
  duration = pos 60;
  lyrics = "";
  platform = "spotify";
}

-- Go takes the second patch first.
abbrev other_order : Surroundings
other_order = record {
  output_name = λ tc. str_append tc ".ogg";
  fetched = λ url. got (200, some (1 ∷ 2 ∷ 3 ∷ []));
  write_fails = false;
  hex = λ key. some [];
  key_is_valid = λ key. true;
  xor_key_stream = λ key bytes. bytes;
  write_decrypted_fails = false;
  open_fails = false;
  patch_order =
      (6, 0 ∷ 0 ∷ 0 ∷ 0 ∷ 0 ∷ 0 ∷ 0 ∷ 0 ∷ 0 ∷ 0 ∷ [])
      ∷ (0, 79 ∷ 103 ∷ 103 ∷ 83 ∷ [])
      ∷ (26, 1 ∷ 30 ∷ 1 ∷ 118 ∷ 111 ∷ 114 ∷ 98 ∷ 105 ∷ 115 ∷ [])
      ∷ (39, 2 ∷ [])
      ∷ (40, 68 ∷ 172 ∷ 0 ∷ 0 ∷ [])
      ∷ (48, 0 ∷ 226 ∷ 4 ∷ 0 ∷ [])
      ∷ (56, 184 ∷ 1 ∷ [])
      ∷ (58, 79 ∷ 103 ∷ 103 ∷ 83 ∷ [])
      ∷ (62, 0 ∷ 0 ∷ 0 ∷ 0 ∷ 0 ∷ 0 ∷ 0 ∷ 0 ∷ 0 ∷ 0 ∷ [])
      ∷ [];
  patch_fails = λ offset. false;
  ffmpeg = λ bytes. (true, some bytes);
}

abbrev no_files : Files
no_files = record { encrypted = none; decrypted = none; output = none }

process_spotify-order_example :
    process_spotify other_order spotify_song no_files
    ≡ process_spotify (record other_order { patch_order = patches }) spotify_song no_files
process_spotify-order_example =
    process_spotify-order other_order spotify_song no_files (Permᴰ.swap refl refl) (λ offset. refl)

abbrev names : Os
names = record {
  extract_filename = λ header. header;
  url_base = λ url. none;
  sanitize = λ name. name;
  join_downloads = λ name. name;
  unique_name = "1.tmp";
}

-- The connection breaks after one byte.
abbrev broken : Transfer
broken = record {
  is_request = true;
  answer = got (record { status = 200; content_disposition = "song"; body = none });
  mkdir_fails = false;
  create_fails = false;
  copied = some (1 ∷ []);
  rename_fails = false;
}

abbrev empty_disk : Disk
empty_disk = record { file = λ path. none; is_dir = λ path. false }

song_is_no_part : (name : String) → "song" ≢ str_append name ".part"
song_is_no_part name h = omega (arith, ap count h, length-append name ".part")

download_file-IsWhole_example :
    IsWhole "song" empty_disk broken.answer
      (download_file names (λ name. false) broken "https://cdn" "" false empty_disk).0
download_file-IsWhole_example =
    download_file-IsWhole names (λ name. false) broken "https://cdn" "" false empty_disk "song"
      song_is_no_part

-- A server error, and then the response.
retried :
    (send_request true (λ attempt. elim attempt [
      | zero ↦ responds (record { status = 502; content_disposition = ""; body = none })
      | suc n ↦ responds (record { status = 404; content_disposition = ""; body = none })
    ])).requests
    ≡ 2
unfolding send_request
retried = refl
