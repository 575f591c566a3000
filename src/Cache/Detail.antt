-- ===== src/Cache/Detail.antt =====
-- `DetailCachePrototype`, over any settings, frames and details. An invalid GU_DetailHandle is
-- `none`. `references` never goes below 0 in the table: an entry that would is removed, so the
-- decrement that stops at 0 takes the branches of the source.
use vray_for_houdini.Base.{
  ℕ, ◌+◌, ◌-◌, Bool, true, false, List, [], ◌∷◌, ◌++◌, Option, none, some, ltb, if◌then◌else◌,
}
use vray_for_houdini.Qt.Text.{QString, is_empty}
use vray_for_houdini.Qt.Map
use vray_for_houdini.Qt.Map.{QMap, Key, number_key, text_key}

-- `CacheElement`, with the details by frame key.
pub record CacheElement (K D : Type 0) : Type 0 where
  pub references : ℕ
  pub details : QMap K (Option D)

-- What the cache asks of its builder.
pub data Event (T F : Type 0) : Type 0 where
  build_detail : QString → T → F → Event T F
  clean_resource : QString → Event T F

pub record DetailCache (T F K D : Type 0) : Type 0 where
  pub is_on : Bool
  pub elements : QMap QString (QMap ℕ (CacheElement K D))
  pub events : List (Event T F)

-- `DetailBuilder::buildDetail`, which also hands a value back to the caller; `getHash` of the
-- settings; and `getFrameKey`, which rounds `1000 * frame` by the AppSDK's `fast_ceil`.
pub record Builder (T F K D R : Type 0) : Type 0 where
  pub build : QString → T → F → Option D × R
  pub hash : T → ℕ
  pub frame_key : F → K

module _ {T F K D R : Type 0} ⦃o : Key K⦄ (b : Builder T F K D R) where
  abbrev pub new_element : CacheElement K D
  new_element = record { references = 0; details = [] }

  -- `detailCache[path]` and `detailCache[path][hash]`, with the default where a key is missing.
  abbrev pub elements_of : DetailCache T F K D → QString → QMap ℕ (CacheElement K D)
  elements_of c path = Map.find_or path [] c.elements

  abbrev pub element_of : DetailCache T F K D → QString → ℕ → CacheElement K D
  element_of c path h = Map.find_or h new_element (elements_of c path)

  -- `detailCache[path][hash] = e`
  abbrev pub put_element :
      DetailCache T F K D → QString → ℕ → CacheElement K D → DetailCache T F K D
  put_element c path h e = record c {
    elements = Map.insert path (Map.insert h e (elements_of c path)) c.elements;
  }

  unfoldable pub enable_cache : DetailCache T F K D → Bool → DetailCache T F K D
  enable_cache c state = record c { is_on = state }

  unfoldable pub register_in_cache : DetailCache T F K D → QString → T → DetailCache T F K D
  register_in_cache c path settings =
      let e = element_of c path (b.hash settings) in
      if is_empty path
      then c
      else put_element c path (b.hash settings) (record e { references = e.references + 1 })

  -- The removal of an element, and of the path with its last element.
  unfoldable pub drop_element : DetailCache T F K D → QString → ℕ → DetailCache T F K D
  drop_element c path h =
      let rest = Map.remove h (elements_of c path) in
      if is_empty rest
      then record c {
        elements = Map.remove path c.elements;
        events = c.events ++ clean_resource path ∷ [];
      }
      else record c { elements = Map.insert path rest c.elements }

  unfoldable pub unregister : DetailCache T F K D → QString → T → DetailCache T F K D
  unregister c path settings =
      let e = element_of c path (b.hash settings) in
      let e' = record e { references = e.references - 1 } in
      let c' = put_element c path (b.hash settings) e' in
      if is_empty path
      then c
      else if ltb e'.references 1
      then drop_element c' path (b.hash settings)
      else c'

  unfoldable pub get_cached : DetailCache T F K D → QString → T → F → Option D
  get_cached c path settings frame =
      if is_empty path then none else elim (Map.find path c.elements) [
        | none ↦ none
        | some elements ↦ elim (Map.find (b.hash settings) elements) [
          | none ↦ none
          | some e ↦ elim (Map.find (b.frame_key frame) e.details) [ none ↦ none | some d ↦ d ]
        ]
      ]

  -- `buildDetail`, recorded as a call.
  abbrev pub call_build : DetailCache T F K D → QString → T → F → DetailCache T F K D
  call_build c path settings frame = record c {
    events = c.events ++ build_detail path settings frame ∷ [];
  }

  -- The new detail is stored, valid or not.
  unfoldable pub store_detail :
      DetailCache T F K D → QString → T → F → Option D → DetailCache T F K D
  store_detail c path settings frame d =
      let e = element_of c path (b.hash settings) in
      put_element c path (b.hash settings)
        (record e { details = Map.insert (b.frame_key frame) d e.details })

  -- `getDetail`, with the value that the caller passes in for `rval` and gets back.
  unfoldable pub get_detail :
      DetailCache T F K D → QString → T → F → R → DetailCache T F K D × Option D × R
  get_detail c path settings frame rval =
      let (d, rval') = b.build path settings frame in
      let c' = call_build c path settings frame in
      if is_empty path
      then (c, none, rval)
      else if c.is_on
      then elim (get_cached c path settings frame) [
        | none ↦ (store_detail c' path settings frame d, d, rval')
        | some d' ↦ (c, some d', rval)
      ]
      else (c', d, rval')

  -- `isCached` for a frame: the detail is there and valid.
  unfoldable pub is_cached_frame : DetailCache T F K D → QString → T → F → Bool
  unfolding get_cached
  is_cached_frame c path settings frame = elim (get_cached c path settings frame) [
    | none ↦ false
    | some d ↦ true
  ]

  -- `isCached` for a path.
  unfoldable pub is_cached : DetailCache T F K D → QString → Bool
  is_cached c path =
      if is_empty path
      then false
      else elim (Map.find path c.elements) [ none ↦ false | some elements ↦ true ]
