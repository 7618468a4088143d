-- ===== src/Downloads/SearchPage.antt =====
-- The search page of YouTube, src/core/dl/youtube_search.go: the tracks in its JSON. Go ranges over the
-- fields of an object in any order; the fields are given in the order of the range.
use yes.Prelude.{
  Bool-cases, inl, inr, ℕ, zero, suc, ◌≡◌, refl, Bool, true, false, List, [], ◌∷◌, ◌++◌, Option,
  none, some, String, if◌then◌else◌, str_eq, All,
}
use yes.Track.{MusicTrack}
use yes.Downloads.{Got, got, failed}
use yes.Downloads.Durations.{parse_duration}
use yes.Downloads.Links.{joined}

mutual
  pub data Json : Type 0 where
    null : Json
    -- a number or a Boolean
    other : Json
    text : String → Json
    array : Items → Json
    object : Fields → Json

  pub data Items : Type 0 where
    no_items : Items
    item : Json → Items → Items

  pub data Fields : Type 0 where
    no_fields : Fields
    field : String → Json → Fields → Fields

pub data Step : Type 0 where
  key : String → Step
  index : ℕ → Step

-- `m[key]`, null without the key.
unfoldable pub field_at : String → Fields → Json
field_at name no_fields = null
field_at name (field k v fields) =
    let rest = field_at name fields in if str_eq k name then v else rest

unfoldable pub item_at : ℕ → Items → Json
item_at i no_items = null
item_at zero (item x items) = x
item_at (suc i) (item x items) = item_at i items

unfoldable pub step_into : Step → Json → Json
unfolding field_at item_at
step_into (key name) (object fields) = field_at name fields
step_into (index i) (array items) = item_at i items
step_into step json = null

unfoldable pub dig : List Step → Json → Json
unfolding step_into
dig [] json = json
dig (step ∷ path) json = dig path (step_into step json)

unfoldable pub safe_string : Json → String
safe_string (text s) = s
safe_string json = ""

-- The fields of an object.
unfoldable pub fields_of : Json → Option Fields
fields_of (object fields) = some fields
fields_of json = none

unfoldable pub video_track : Fields → MusicTrack
unfolding dig safe_string parse_duration
video_track vid =
    let id = safe_string (field_at "videoId" vid) in
    record {
      url = joined "https://www.youtube.com/watch?v=" id;
      name = safe_string (dig (key "title" ∷ key "runs" ∷ index 0 ∷ key "text" ∷ []) (object vid));
      id = id;
      cover =
          safe_string
            (dig (key "thumbnail" ∷ key "thumbnails" ∷ index 0 ∷ key "url" ∷ []) (object vid));
      duration =
          parse_duration
            (safe_string (dig (key "lengthText" ∷ key "simpleText" ∷ []) (object vid)));
      platform = "youtube";
    }

-- `parseSearchResults`: the tracks that it appends.
unfoldable mutual
  unfolding video_track fields_of field_at

  pub parse_search_results : Json → List MusicTrack
  parse_search_results null = []
  parse_search_results other = []
  parse_search_results (text s) = []
  parse_search_results (array items) = parse_items items
  parse_search_results (object fields) =
      let children = parse_fields fields in
      elim (fields_of (field_at "videoRenderer" fields)) [
        | some vid ↦ video_track vid ∷ []
        | none ↦ children
      ]

  pub parse_items : Items → List MusicTrack
  parse_items no_items = []
  parse_items (item x items) = parse_search_results x ++ parse_items items

  pub parse_fields : Fields → List MusicTrack
  parse_fields no_fields = []
  parse_fields (field k v fields) = parse_search_results v ++ parse_fields fields

unfoldable pub is_null : Json → Bool
is_null null = true
is_null json = false

abbrev results_path : List Step
results_path =
    key "contents"
    ∷ key "twoColumnSearchResultsRenderer"
    ∷ key "primaryContents"
    ∷ key "sectionListRenderer"
    ∷ key "contents"
    ∷ []

unfoldable pub tracks_in : Json → Got (List MusicTrack)
unfolding parse_search_results is_null
tracks_in contents =
    if is_null contents then failed "no contents" else got (parse_search_results contents)

-- `searchYouTube`, for the data that the page holds.
unfoldable pub search_youtube : Got Json → Got (List MusicTrack)
unfolding dig tracks_in
search_youtube (failed why) = failed why
search_youtube (got page) =
    let contents =
      dig
        (key "contents"
          ∷ key "twoColumnSearchResultsRenderer"
          ∷ key "primaryContents"
          ∷ key "sectionListRenderer"
          ∷ key "contents"
          ∷ [])
        page in
    if is_null contents then failed "no contents" else got (parse_search_results contents)

-- A track of YouTube with the link of its id.
unfoldable pub IsVideo : MusicTrack → Type 0
IsVideo track =
    (track.url ≡ joined "https://www.youtube.com/watch?v=" track.id) × (track.platform ≡ "youtube")

All-append : (xs ys : List MusicTrack) → All IsVideo xs → All IsVideo ys → All IsVideo (xs ++ ys)
All-append [] ys h k = k
All-append (x ∷ xs) ys (h, hs) k = (h, All-append xs ys hs k)

video_track-IsVideo : (vid : Fields) → IsVideo (video_track vid)
unfolding IsVideo video_track
video_track-IsVideo vid = (refl, refl)

renderer-All :
    (vid : Option Fields) (tracks : List MusicTrack)
    → All IsVideo tracks
    → All IsVideo (elim vid [ some v ↦ video_track v ∷ [] | none ↦ tracks ])
renderer-All none tracks h = h
renderer-All (some vid) tracks h = (video_track-IsVideo vid, tt)

mutual
  unfolding parse_search_results

  parse_search_results-All : (json : Json) → All IsVideo (parse_search_results json)
  parse_search_results-All null = tt
  parse_search_results-All other = tt
  parse_search_results-All (text s) = tt
  parse_search_results-All (array items) = parse_items-All items
  parse_search_results-All (object fields) =
      renderer-All (fields_of (field_at "videoRenderer" fields)) (parse_fields fields)
        (parse_fields-All fields)

  parse_items-All : (items : Items) → All IsVideo (parse_items items)
  parse_items-All no_items = tt
  parse_items-All (item x items) =
      All-append (parse_search_results x) (parse_items items) (parse_search_results-All x)
        (parse_items-All items)

  parse_fields-All : (fields : Fields) → All IsVideo (parse_fields fields)
  parse_fields-All no_fields = tt
  parse_fields-All (field k v fields) =
      All-append (parse_search_results v) (parse_fields fields) (parse_search_results-All v)
        (parse_fields-All fields)

-- The tracks of an answer, if it is one.
unfoldable pub AreVideos : Got (List MusicTrack) → Type 0
AreVideos (failed why) = Unit
AreVideos (got tracks) = All IsVideo tracks

tracks_in-AreVideos : (contents : Json) → AreVideos (tracks_in contents)
unfolding AreVideos tracks_in
tracks_in-AreVideos contents = elim (Bool-cases (is_null contents)) [
  | inl e ↦ rw e tt
  | inr e ↦ rw e (parse_search_results-All contents)
]

pub search_youtube-AreVideos : (page : Got Json) → AreVideos (search_youtube page)
unfolding search_youtube AreVideos
search_youtube-AreVideos (failed why) = tt
search_youtube-AreVideos (got page) = tracks_in-AreVideos (dig results_path page)
