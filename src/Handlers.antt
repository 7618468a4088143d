-- ===== src/Handlers.antt =====
-- src/handlers: the commands of a chat. A handler gets the state of the player and what the libraries
-- answer, and gives the new state and its reply.
pub mod Controls
pub mod Play
pub mod Commands
pub mod Enqueue
pub mod FirstTrack
pub mod Filters
pub mod Permissions
pub mod Playlists
pub mod Ownership
pub mod Watcher
pub mod Watching
pub mod Auth
pub mod Authorization
pub mod Broadcast
pub mod Broadcasting
pub mod BroadcastOptions
pub mod BroadcastProgress
pub mod BroadcastResult
pub mod Speed
pub mod Reload
pub mod Settings
pub mod SettingsChange
pub mod PlayCommand
pub mod Callbacks
pub mod CallbackFrame
pub mod PlayedPlaylist
use yes.Prelude.{List, [], String, ℤ}

-- A reply: the key of its text in the locales, and the numbers that the text shows.
pub record Reply : Type 0 where
  pub key : String
  pub numbers : List ℤ

abbrev pub says : String → Reply
says key = record { key = key; numbers = [] }

abbrev pub says_with : String → List ℤ → Reply
says_with key numbers = record { key = key; numbers = numbers }
