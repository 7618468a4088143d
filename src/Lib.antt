-- ===== src/Lib.antt =====
-- A model of the Telegram music bot, with the theorems that make its core correct.
--
-- The bot plays tracks in the voice chats of Telegram groups. Each group has a queue of tracks in memory
-- (src/core/cache), which the commands (src/handlers) change and which the player (src/vc) works off with the
-- help of assistants, user accounts that join the calls. Settings and playlists lie in MongoDB behind
-- caches with an expiry time (src/core/db), and filters decide who may use a command.
--
-- Files, and what they model:
-- - Track: the tracks of src/core/cache/types.go, and the store that makes them shared objects: a
--   `*CachedTrack` is a reference, since the queue and the player write to one object.
-- - ChatCache: src/core/cache/chat_cache.go, each method a function on the cache; Frame and Queue refine it
--   to one optional queue for each chat, Tracks and Active are about single tracks and the active chats.
-- - TtlCache: src/core/cache/cache.go. AdminCache: src/core/cache/admin_cache.go, Reads its answers.
-- - Playback: PlayNext, playSong, downloadAndPrepareSong, PlayMedia, Stop and handleNoSong of src/vc/calls.go.
--   `choose` is the first half of PlayNext, `play_song` gets the call of PlayNext that a failed download
--   makes as a function. Effects has the step lemmas; Termination, Current, Frame,
--   Loops and Starts have the theorems.
-- - Config: src/config/config.go and helpers.go (Valid its theorem).
-- - Assistants: getClientName, GetGroupAssistant and StartClient of src/vc/calls.go (Service its theorems),
--   src/vc/userbot.go (Joining, with Membership its theorems) and
--   src/vc/leave_all.go (Leaving).
-- - Database: src/core/db/utilities.go (Utilities), src/core/db/mongo.go (Chats, Users, Authorized, Logger) and
--   src/core/db/playlist.go (Playlists); Settings, Access, Language and Songs have the theorems.
-- - Handlers: src/handlers/remove.go, loop.go, seek.go, skip.go, stop.go, pause.go and mute.go (Controls),
--   play.go (Play, and PlayCommand for handlePlay), filters.go (Filters), playlist.go (Playlists), watcher.go
--   (Watcher), auth.go (Auth) and callbacks.go (Callbacks); Commands, Enqueue, FirstTrack, Permissions, Ownership, Watching,
--   Authorization, CallbackFrame and PlayedPlaylist the theorems.
-- - Downloads: src/core/dl. Durations (with src/core/cache/helpers.go), Http (http_client.go, Saving its
--   theorems), Spotify (spotify.go, with Ogg for rebuildOGG), Links (the patterns and links of youtube.go;
--   VideoIds and VideoInfo have its theorems), SearchPage
--   (youtube_search.go), Youtube and Fetching (youtube.go, api.go, service.go and helpers.go), Media
--   (src/vc/helpers.go; VideoSize has the theorem).
-- - Sessions: src/vc/sessions, session strings as lists of bytes.
-- - UserBot: src/vc/ubot, the state of one assistant's calls (context.go) and everything that changes it. Ids,
--   GroupCalls and Sources are the small files, Participants and Calling the handler of
--   UpdateGroupCallParticipants, Phone the handler of UpdatePhoneCall, Connect and Dial the two branches of
--   connectCall, Calling connectCall itself, Play and Record, Presentation joinPresentation. Streams, Roster,
--   Announced, Changes, Unblocked, Cleanup, Stops, Outcome and Muted have the theorems. The commands to the
--   call library are kept in order in the context; what it and Telegram answer, and what happens in the
--   other handlers during a wait, are records of answers. The handler of an incoming call is two steps, before
--   and after its question to Telegram, between which other handlers run. A method that waits for a
--   mutex that stays held ends as `waiting`.
-- - Prelude: Boolean tests, lists, integers, maps as association lists, and decimal text. Tests: concrete
--   inputs for the theorems.
--
-- Playback.Speed is ChangeSpeed of src/vc/calls.go, where the printing of floats and a rounded inverse are
-- parameters, Handlers.Speed src/handlers/speed.go,
-- Handlers.Reload src/handlers/admins.go, Handlers.Settings settings.go and language.go of src/handlers
-- (SettingsChange the theorem).
--
-- Handlers.Broadcast is src/handlers/broadcast.go; Broadcasting, BroadcastResult, BroadcastProgress and
-- BroadcastOptions have its theorems. A run of its workers is a list of events in any order.
--
-- State is passed explicitly: a method is a function from the state to the new state and its result. The
-- mutexes make each method of a cache one step; the steps of different handlers may interleave, which the
-- refinement of ChatCache covers. An `int` of the chat cache and of the handlers is an integer without a
-- bound, but for the sum of `/seek` and the durations in text, which wrap at 64 bits, and the counters of
-- a broadcast, at 32.
--
-- PlayMedia takes as an answer whether the assistant joins, which Joining models by itself.
--
-- Telegram, the network, the file system, the environment, AES, ffmpeg and ffprobe, yt-dlp, the call library
-- and MongoDB are parameters: what they answer is an argument of the function that asks. The collection of playlists is an interface, `Collection`, with
-- what MongoDB's documentation says of its calls. Times are natural numbers of nanoseconds.
--
-- Fuel: PlayNext and playSong call each other until a track can be prepared. `play_next` takes fuel; one
-- more than the tracks of the queue and their loops is enough, and `play_next_full` gives that much.
-- The loop that pads a session string takes three rounds at most, which is the fuel of `pad`.
--
-- The loops of ChangeSpeed have three rounds of fuel, of which a speed in its range takes one. The loop of
-- sendRequest has as many attempts as maxRetries.
--
-- Not modelled: the answers of the API in JSON and src/core/dl/telegram.go, the call library and its bindings (src/vc/ntgcalls), the
-- handlers of src/vc/ubot that only pass data on, the texts and buttons of the replies, the commands
-- that only show texts or are run by the developers, and start-up. A reply is the key of its text and the numbers
-- or names that it shows.
pub mod Prelude
pub mod Config
pub mod Track
pub mod ChatCache
pub mod Downloads
pub mod TtlCache
pub mod AdminCache
pub mod Playback
pub mod Database
pub mod Handlers
pub mod Assistants
pub mod UserBot
pub mod Sessions
pub mod Tests
