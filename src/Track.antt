-- ===== src/Track.antt =====
-- The tracks of src/core/cache/types.go. A `*CachedTrack` is shared between the queue and the code
-- that plays it, which writes to it: it is a reference into a store of tracks.
use yes.Prelude.{ℕ, ◌+◌, Bool, String, ℤ, nat_eq, if◌then◌else◌}

pub record CachedTrack : Type 0 where
  pub url : String
  pub name : String
  pub loop : ℤ
  pub user : String
  pub file_path : String
  pub thumbnail : String
  pub track_id : String
  pub duration : ℤ
  pub lyrics : String
  pub is_video : Bool
  pub platform : String

pub record TrackInfo : Type 0 where
  pub url : String
  pub cdn_url : String
  pub key : String
  pub name : String
  pub tc : String
  pub cover : String
  pub duration : ℤ
  pub lyrics : String
  pub platform : String

pub record MusicTrack : Type 0 where
  pub url : String
  pub name : String
  pub id : String
  pub cover : String
  pub duration : ℤ
  pub platform : String

abbrev pub telegram : String
telegram = "telegram"

abbrev pub admins : String
admins = "admins"

abbrev pub everyone : String
everyone = "everyone"

abbrev pub auth : String
auth = "auth"

-- A reference to a track, never nil.
abbrev pub Ref : Type 0
Ref = ℕ

-- The store: the tracks by reference, and the first reference that is not in use.
pub record Heap : Type 0 where
  pub next : Ref
  pub cell : Ref → CachedTrack

-- `&CachedTrack{…}`
unfoldable pub alloc : CachedTrack → Heap → Heap
alloc t h = record { next = h.next + 1; cell = λ r. if nat_eq r h.next then t else h.cell r }

-- `*p = t`
unfoldable pub write : Ref → CachedTrack → Heap → Heap
write p t h = record h { cell = λ r. if nat_eq r p then t else h.cell r }
