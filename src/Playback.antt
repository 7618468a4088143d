-- ===== src/Playback.antt =====
-- src/vc/calls.go: which track a chat plays next. The rounds of one `PlayNext` are numbered, and what
-- Telegram, the downloader and the call library answer in a round is a parameter, `Env`.
pub mod Effects
pub mod Termination
pub mod Current
pub mod Frame
pub mod Loops
pub mod Speed
pub mod Starts
use yes.Prelude.{
  ℕ, zero, suc, Bool, true, false, List, [], ◌∷◌, Option, none, some, String, ℤ, pos, ◌-ℤ◌, ltb_ℤ,
  int_eq, str_eq, if◌then◌else◌,
}
use yes.Track.{CachedTrack, TrackInfo, Ref, Heap, write}
use yes.ChatCache.{
  ChatCacher, get_upcoming_track, get_playing_track, remove_current_song, clear_chat,
  get_loop_count, set_loop_count,
}

pub record Player : Type 0 where
  pub heap : Heap
  pub chats : ChatCacher

-- What `DownloadSong` returns: an error, or a path and perhaps the track's details.
pub data Download : Type 0 where
  failed : Download
  fetched : String → Option TrackInfo → Download

-- The answers in each round: was the message sent, what was downloaded, did `GetGroupAssistant` find
-- an assistant, did it join the chat, did the call library start the stream, what `ffprobe` measured,
-- and did `GetGroupAssistant` find an assistant for `Stop`.
pub record Env : Type 0 where
  pub sends : ℕ → Bool
  pub downloads : ℕ → Download
  pub has_assistant : ℕ → Bool
  pub joins : ℕ → Bool
  pub streams : ℕ → Bool
  pub durations : ℕ → ℤ
  pub can_stop : ℕ → Bool

-- How a `PlayNext` ends.
pub data Outcome : Type 0 where
  playing : Ref → Outcome
  queue_finished : Outcome
  message_failed : Outcome
  media_failed : Outcome

abbrev pub update_track : Ref → CachedTrack → Player → Player
update_track r t p = record p { heap = write r t p.heap }

abbrev pub with_duration : Option TrackInfo → CachedTrack → CachedTrack
with_duration none t = t
with_duration (some info) t =
    if ltb_ℤ (pos 0) info.duration then record t { duration = info.duration } else t

prepared : Download → Ref → Player → Player × Bool
prepared failed r p = (p, false)
prepared (fetched path info) r p =
    if str_eq path ""
    then (
      update_track r (with_duration info (record (p.heap.cell r) { file_path = path })) p,
      false,
    )
    else (update_track r (with_duration info (record (p.heap.cell r) { file_path = path })) p, true)

-- `true` is no error.
unfoldable pub download_and_prepare_song : Download → Ref → Player → Player × Bool
unfolding prepared
download_and_prepare_song answer r p =
    if str_eq (p.heap.cell r).file_path "" then prepared answer r p else (p, true)

pub cleared : ℤ → Player → Player
cleared chat_id p = record p { chats = clear_chat chat_id p.chats }

started : Bool → ℤ → Player → Player × Bool
started true chat_id p = (p, true)
started false chat_id p = (cleared chat_id p, false)

-- `PlayMedia`, given whether there is an assistant, whether it joins and whether the stream starts.
unfoldable pub play_media : Bool → Bool → Bool → ℤ → Player → Player × Bool
unfolding cleared started
play_media false joined streamed chat_id p = (p, false)
play_media true joined streamed chat_id p =
    if ltb_ℤ chat_id (pos 0)
    then (if joined then started streamed chat_id p else (cleared chat_id p, false))
    else started streamed chat_id p

-- `Stop`, given whether `GetGroupAssistant` finds an assistant; the call library's error is ignored.
unfoldable pub stop : Bool → ℤ → Player → Player × Bool
unfolding cleared
stop false chat_id p = (p, false)
stop true chat_id p = (cleared chat_id p, true)

unfoldable pub handle_no_song : Bool → ℤ → Player → Player
unfolding stop
handle_no_song found chat_id p = (stop found chat_id p).0

pub measured : ℤ → Ref → Player → Player
measured duration r p =
    if int_eq (p.heap.cell r).duration (pos 0)
    then update_track r (record (p.heap.cell r) { duration = duration }) p
    else p

reported : ℤ → Ref → Player × Bool → Option (Outcome × Player)
reported duration r (p, false) = some (media_failed, p)
reported duration r (p, true) = some (playing r, measured duration r p)

module _ (env : Env) where
  -- `playSong` in round `n`; `again` is the call of `PlayNext` when the track cannot be prepared.
  unfoldable pub play_song :
      (Player → Option (Outcome × Player)) → ℕ → ℤ → Ref → Player → Option (Outcome × Player)
  unfolding measured reported
  play_song again n chat_id r p =
      if env.sends n
      then (let (p', ready) = download_and_prepare_song (env.downloads n) r p in
          if ready
          then reported (env.durations n) r
              (play_media (env.has_assistant n) (env.joins n) (env.streams n) chat_id p')
          else again p')
      else some (message_failed, p)

-- The track that `PlayNext` chooses, after it has counted a loop down or dropped the current track.
pub decremented : ℤ → ℤ → Player → Player
decremented loop chat_id p = record p {
  heap = (set_loop_count chat_id (loop -ℤ pos 1) p.chats p.heap).0;
}

pub dropped : ℤ → Player → Player
dropped chat_id p = record p { chats = (remove_current_song chat_id p.chats).0 }

advance : ℤ → Player → Player × Option Ref
advance chat_id p = (dropped chat_id p, get_upcoming_track chat_id p.chats)

repeat : ℤ → Player → Option Ref → Player × Option Ref
repeat chat_id p none = advance chat_id p
repeat chat_id p (some current) = (p, some current)

unfoldable pub choose : ℤ → Player → Player × Option Ref
unfolding decremented dropped advance repeat
choose chat_id p =
    let loop = get_loop_count chat_id p.chats p.heap in
    if ltb_ℤ (pos 0) loop
    then repeat chat_id (decremented loop chat_id p) (get_playing_track chat_id p.chats)
    else advance chat_id p

-- `PlayNext` from round `n` on; `none` means that the fuel ran out.
module _ (env : Env) where
  chosen :
      (Player → Option (Outcome × Player)) → ℕ → ℤ → Player × Option Ref → Option (Outcome × Player)
  chosen again n chat_id (p, some r) = play_song env again n chat_id r p
  chosen again n chat_id (p, none) =
      some (queue_finished, handle_no_song (env.can_stop n) chat_id p)

  unfoldable pub play_next : ℕ → ℕ → ℤ → Player → Option (Outcome × Player)
  unfolding chosen
  play_next zero n chat_id p = none
  play_next (suc fuel) n chat_id p =
      chosen (play_next fuel (suc n) chat_id) n chat_id (choose chat_id p)
