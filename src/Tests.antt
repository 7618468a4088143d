-- ===== src/Tests.antt =====
-- Concrete inputs for the theorems of the library, and runs of the modelled code on them.
mod Data
mod Cache
mod Player
mod Settings
mod Commands
mod Playlists
mod Access
mod Joining
mod Calls
mod Watching
mod Authorization
mod Sessions
mod Buttons
mod Downloads
mod Broadcasts
mod Links
mod Startup
mod Modes
