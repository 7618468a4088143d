-- ===== src/Downloads/Spotify.antt =====
-- src/core/dl/spotify.go: a track is fetched encrypted, decrypted, repaired and rewritten by ffmpeg. The
-- three files of the track are the state; what the network, AES and ffmpeg answer is a parameter.
use mathlib.Core.List.{Permᴰ}
use yes.Prelude.{
  ◌≡◌, refl, ap, arith, ℕ, Bool, false, List, Option, none, some, String, nat_eq, not,
  if◌then◌else◌, str_eq,
}
use yes.Track.{TrackInfo}
use yes.Downloads.{Got, got, failed}
use yes.Downloads.Ogg.{Patch, patches, rebuild_ogg, rebuild_ogg-order}

-- The bytes of the files `id.encrypted`, `id_decrypted.ogg` and `id.ogg`, where they exist.
pub record Files : Type 0 where
  pub encrypted : Option (List ℕ)
  pub decrypted : Option (List ℕ)
  pub output : Option (List ℕ)

pub record Surroundings : Type 0 where
  -- `filepath.Join(config.Conf.DownloadsDir, filepath.Base(tc)+".ogg")`
  pub output_name : String → String
  -- `http.Get` and `io.ReadAll`: the status, and the body if it could be read
  pub fetched : String → Got (ℕ × Option (List ℕ))
  pub write_fails : Bool
  pub hex : String → Option (List ℕ)
  pub key_is_valid : List ℕ → Bool
  -- AES in counter mode under a key
  pub xor_key_stream : List ℕ → List ℕ → List ℕ
  pub write_decrypted_fails : Bool
  pub open_fails : Bool
  pub patch_order : List Patch
  pub patch_fails : ℕ → Bool
  -- whether ffmpeg exits without an error, and the file that it has left
  pub ffmpeg : List ℕ → Bool × Option (List ℕ)

-- `decryptAudioFile`, on the bytes that were just written.
unfoldable pub decrypt_audio_file : Surroundings → Option (List ℕ) → String → Got (List ℕ)
decrypt_audio_file env none hex_key = failed "file not found"
decrypt_audio_file env (some bytes) hex_key = elim (env.hex hex_key) [
  | none ↦ failed "invalid hex key"
  | some key ↦
      if env.key_is_valid key
      then got (env.xor_key_stream key bytes)
      else failed "failed to create the AES cipher"
]

-- The end of `downloadAndDecrypt`: the decrypted bytes are written.
unfoldable pub write_decrypted : Surroundings → Files → Got (List ℕ) → Files × Got Unit
write_decrypted env files (failed why) = (files, failed why)
write_decrypted env files (got bytes) =
    if env.write_decrypted_fails
    then (files, failed "failed to write the decrypted file")
    else (record files { decrypted = some bytes }, got tt)

unfoldable pub download_and_decrypt : Surroundings → TrackInfo → Files → Files × Got Unit
unfolding write_decrypted decrypt_audio_file
download_and_decrypt env track files = elim (env.fetched track.cdn_url) [
  | failed why ↦ (files, failed "failed to download the file")
  | got (status, body) ↦
      if not (nat_eq status 200) then (files, failed "unexpected status code") else elim body [
        | none ↦ (files, failed "failed to read the response body")
        | some bytes ↦
            if env.write_fails
            then (files, failed "failed to write the encrypted file")
            else let stored : Files = record files { encrypted = some bytes } in
              write_decrypted env stored (decrypt_audio_file env stored.encrypted track.key)
      ]
]

-- `rebuildOGG` on the decrypted file; its error is logged only.
unfoldable pub rebuilt : Surroundings → Files → Files
unfolding rebuild_ogg
rebuilt env files = elim files.decrypted [
  | none ↦ files
  | some bytes ↦
      if env.open_fails
      then files
      else record files { decrypted = some (rebuild_ogg env.patch_order env.patch_fails bytes).0 }
]

unfoldable pub fix_ogg : Surroundings → TrackInfo → Files → Files × Got String
fix_ogg env track files = elim files.decrypted [
  | none ↦ (files, failed "ffmpeg failed")
  | some bytes ↦
      let (is_ok, left) = env.ffmpeg bytes in
      let after : Files = record files { output = left } in
      if is_ok then (after, got (env.output_name track.tc)) else (after, failed "ffmpeg failed")
]

-- The deferred removal of the two temporary files.
unfoldable pub temporaries_removed : Files × Got String → Files × Got String
temporaries_removed (files, result) = (record files { encrypted = none; decrypted = none }, result)

unfoldable pub after_decryption : Surroundings → TrackInfo → Files × Got Unit → Files × Got String
unfolding rebuilt fix_ogg
after_decryption env track (files, failed why) = (files, failed why)
after_decryption env track (files, got done) = fix_ogg env track (rebuilt env files)

unfoldable pub process_spotify : Surroundings → TrackInfo → Files → Files × Got String
unfolding temporaries_removed after_decryption download_and_decrypt
process_spotify env track files = elim files.output [
  | some bytes ↦ (files, got (env.output_name track.tc))
  | none ↦
      if str_eq track.key ""
      then (files, failed "missing CDN key")
      else temporaries_removed (after_decryption env track (download_and_decrypt env track files))
]

repaired_same :
    (env : Surroundings) (files : Files)
    → Permᴰ patches env.patch_order
    → ((offset : ℕ) → env.patch_fails offset ≡ false)
    → rebuilt env files ≡ rebuilt (record env { patch_order = patches }) files
unfolding rebuilt
repaired_same env files d h = λ i. elim files.decrypted [
  | none ↦ files
  | some bytes ↦
      let (repaired, at_offset) = rebuild_ogg-order env.patch_order env.patch_fails bytes d h i in
      if env.open_fails then files else record files { decrypted = some repaired }
]

after_decryption_same :
    (env : Surroundings) (track : TrackInfo) (fetched : Files × Got Unit)
    → Permᴰ patches env.patch_order
    → ((offset : ℕ) → env.patch_fails offset ≡ false)
    → after_decryption env track fetched
      ≡ after_decryption (record env { patch_order = patches }) track fetched
unfolding after_decryption fix_ogg
after_decryption_same env track (files, failed why) d h = refl
after_decryption_same env track (files, got done) d h =
    ap (fix_ogg env track) (repaired_same env files d h)

-- If no write of a patch fails, then the files and the result of processSpotify are the same in
-- whatever order Go ranges over the patches of the header.
pub process_spotify-order :
    (env : Surroundings) (track : TrackInfo) (files : Files)
    → Permᴰ patches env.patch_order
    → ((offset : ℕ) → env.patch_fails offset ≡ false)
    → process_spotify env track files
      ≡ process_spotify (record env { patch_order = patches }) track files
unfolding process_spotify download_and_decrypt decrypt_audio_file write_decrypted
process_spotify-order env track files d h = λ i. elim files.output [
  | some bytes ↦ (files, got (env.output_name track.tc))
  | none ↦
      if str_eq track.key ""
      then (files, failed "missing CDN key")
      else temporaries_removed
          (after_decryption_same env track (download_and_decrypt env track files) d h i)
]

-- The encrypted and the decrypted file are gone after processSpotify, however it ends, if they were not
-- there before.
pub process_spotify-forgets :
    (env : Surroundings) (track : TrackInfo) (files : Files)
    → files.encrypted ≡ none
    → files.decrypted ≡ none
    → ((process_spotify env track files).0.encrypted ≡ none)
      × ((process_spotify env track files).0.decrypted ≡ none)
unfolding process_spotify temporaries_removed
process_spotify-forgets env track files he hd = ground arith
