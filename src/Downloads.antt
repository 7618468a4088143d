-- ===== src/Downloads.antt =====
-- The downloaders of src/core/dl: links, durations and the files that they make. What a download
-- answers is a value of `Got`; errors are named by their text without what it quotes.
use yes.Prelude.{String}
pub mod Durations
pub mod Http
pub mod Links
pub mod VideoIds
pub mod Media
pub mod VideoSize
pub mod Youtube
pub mod Fetching
pub mod SearchPage
pub mod VideoInfo
pub mod Ogg
pub mod Saving
pub mod Spotify

-- A result or an error.
pub data Got (A : Type 0) : Type 0 where
  got : A → Got A
  failed : String → Got A
