-- ===== src/Tests/Data.antt =====
-- The chats, tracks and answers that the examples use.
use yes.Prelude.{zero, suc, true, false, [], ◌∷◌, none, String, ℤ, pos, negsuc}
use yes.Track.{CachedTrack, MusicTrack, Heap}
use yes.ChatCache.{ChatCacher, ChatData}
use yes.Handlers.Play.{Request}
use yes.Playback.{Player, Env, failed, fetched}

-- Two groups.
abbrev pub room : ℤ
room = negsuc 99

abbrev pub other_room : ℤ
other_room = negsuc 199

abbrev pub track : String → ℤ → CachedTrack
track track_id loop = record {
  url = "";
  name = track_id;
  loop = loop;
  user = "user";
  file_path = "";
  thumbnail = "";
  track_id = track_id;
  duration = pos 200;
  lyrics = "";
  is_video = false;
  platform = "youtube";
}

-- Track 0 is to be played twice more.
abbrev pub tracks : Heap
tracks = record {
  next = 3;
  cell = λ r. elim r [
    | zero ↦ track "a" (pos 2)
    | suc zero ↦ track "b" (pos 0)
    | _ ↦ track "c" (pos 0)
  ];
}

abbrev pub two_tracks : ChatData
two_tracks = record { is_active = true; queue = 0 ∷ 1 ∷ [] }

-- `room` plays tracks 0 and 1; `other_room` is unknown.
abbrev pub chats : ChatCacher
chats = record { chat_cache = (room, two_tracks) ∷ [] }

abbrev pub player : Player
player = record { heap = tracks; chats = chats }

abbrev pub idle_player : Player
idle_player = record { heap = tracks; chats = record { chat_cache = [] } }

-- Everything works, but for the first download.
abbrev pub env : Env
env = record {
  sends = λ n. true;
  downloads = λ n. elim n [ zero ↦ failed | _ ↦ fetched "song.m4a" none ];
  has_assistant = λ n. true;
  joins = λ n. true;
  streams = λ n. true;
  durations = λ n. pos 200;
  can_stop = λ n. true;
}

-- Everything works.
abbrev pub sound_env : Env
sound_env = record env { downloads = λ n. fetched "song.m4a" none }

-- No download works.
abbrev pub broken_env : Env
broken_env = record env { downloads = λ n. failed }

abbrev pub song : String → ℤ → MusicTrack
song id duration = record {
  url = "";
  name = id;
  id = id;
  cover = "";
  duration = duration;
  platform = "youtube";
}

-- A request of a user in `room`, where songs may last an hour.
abbrev pub request : Request
request = record {
  chat_id = room;
  user = "user";
  is_video = false;
  song_duration_limit = pos 3600;
  max_file_size = pos 500000000;
}
