-- ===== src/Connection/Orderly.antt =====
-- The streams of a connection as src/http2/connection.cc keeps them: the invariant, and the changes of the map.
use libhttp.Prelude.{
  ℕ, ◌%◌, ◌<◌, ◌≡◌, ◌≢◌, ◌⊎◌, inl, inr, refl, sym, Bool, List, [], ◌∷◌, some, map, All,
  if◌then◌else◌, Bool-cases, ◌==◌, arith,
}
use mathlib.Core.Path.{subst}
use libhttp.Settings.{global_settings_parameters}
use libhttp.Settings.Ranges.{AllWithin}
use libhttp.Stream.{Http2Stream}
use libhttp.Connection.{Connection, Event, find_stream, destroy_stream, store_stream, notify}

-- What the invariant reads of a connection.
pub record Core : Type 0 where
  pub client_side : Bool
  pub next_local_stream_id : ℕ
  pub streams : List Http2Stream
  pub remote_settings : List ℕ

abbrev pub core : Connection → Core
core c = record {
  client_side = c.client_side;
  next_local_stream_id = c.next_local_stream_id;
  streams = c.streams;
  remote_settings = c.settings.remote_settings;
}

-- A stream stands under its own id alone.
abbrev pub IsMap : List Http2Stream → Type 0
IsMap [] = Unit
IsMap (s ∷ ss) = All (λ u. u.stream_id ≢ s.stream_id) ss × IsMap ss

-- An id that may stand in the map: one of this side only if it has been given out.
abbrev pub IsUsable : Core → ℕ → Type 0
IsUsable k id = (0 < id) × ((id % 2 ≢ k.next_local_stream_id % 2) ⊎ (id < k.next_local_stream_id))

-- The streams have ids of their own, the ids of this side that are in use lie below the next one,
-- which has the parity of the side, and the settings of the peer are in range.
pub record IsOrderly (k : Core) : Type 0 where
  pub parity : k.next_local_stream_id % 2 ≡ (if k.client_side then 1 else 0)
  pub positive : 0 < k.next_local_stream_id
  pub own_ids : IsMap k.streams
  pub usable : All (λ s. IsUsable k s.stream_id) k.streams
  pub in_range : AllWithin global_settings_parameters k.remote_settings

store-All :
    (P : ℕ → Type 0) (ss : List Http2Stream) (s : Http2Stream)
    → All (λ u. P u.stream_id) ss
    → P s.stream_id
    → All (λ u. P u.stream_id) (store_stream ss s)
unfolding store_stream
store-All P [] s h p = (p, tt)
store-All P (u ∷ us) s h p = elim (Bool-cases (u.stream_id == s.stream_id)) [
  | inl same ↦ rw same (p, h.1)
  | inr other ↦ rw other (h.0, store-All P us s h.1 p)
]

store-IsMap : (ss : List Http2Stream) (s : Http2Stream) → IsMap ss → IsMap (store_stream ss s)
unfolding store_stream
store-IsMap [] s h = (tt, tt)
store-IsMap (u ∷ us) s h = elim (Bool-cases (u.stream_id == s.stream_id)) [
  | inl same ↦
      let equal : u.stream_id ≡ s.stream_id = ground arith in
      rw same (subst (λ (n : ℕ). All (λ v. v.stream_id ≢ n) us) equal h.0, h.1)
  | inr other ↦
      rw other (store-All (λ n. n ≢ u.stream_id) us s h.0 (λ e. ground arith), store-IsMap us s h.1)
]

destroy-All :
    (P : Http2Stream → Type 0) (ss : List Http2Stream) (id : ℕ)
    → All P ss
    → All P (destroy_stream ss id)
unfolding destroy_stream
destroy-All P [] id h = tt
destroy-All P (u ∷ us) id h = elim (Bool-cases (u.stream_id == id)) [
  | inl same ↦ rw same (destroy-All P us id h.1)
  | inr other ↦ rw other (h.0, destroy-All P us id h.1)
]

destroy-IsMap : (ss : List Http2Stream) (id : ℕ) → IsMap ss → IsMap (destroy_stream ss id)
unfolding destroy_stream
destroy-IsMap [] id h = tt
destroy-IsMap (u ∷ us) id h = elim (Bool-cases (u.stream_id == id)) [
  | inl same ↦ rw same (destroy-IsMap us id h.1)
  | inr other ↦
      rw other (destroy-All (λ v. v.stream_id ≢ u.stream_id) us id h.0, destroy-IsMap us id h.1)
]

-- A change of each stream that leaves the ids.
module _ (f : Http2Stream → Http2Stream)
    (same : (s : Http2Stream) → (f s).stream_id ≡ s.stream_id) where
  map-All :
      (P : ℕ → Type 0) (ss : List Http2Stream)
      → All (λ u. P u.stream_id) ss
      → All (λ u. P u.stream_id) (map f ss)
  map-All P [] h = tt
  map-All P (s ∷ ss) h = (subst P (sym (same s)) h.0, map-All P ss h.1)

  map-IsMap : (ss : List Http2Stream) → IsMap ss → IsMap (map f ss)
  map-IsMap [] h = tt
  map-IsMap (s ∷ ss) h = (
    subst (λ (n : ℕ). All (λ v. v.stream_id ≢ n) (map f ss)) (sym (same s))
        (map-All (λ n. n ≢ s.stream_id) ss h.0),
    map-IsMap ss h.1,
  )

  pub map-IsOrderly : (k : Core) → IsOrderly k → IsOrderly (record k { streams = map f k.streams })
  map-IsOrderly k o = record {
    parity = o.parity;
    positive = o.positive;
    own_ids = map-IsMap k.streams o.own_ids;
    usable = map-All (IsUsable k) k.streams o.usable;
    in_range = o.in_range;
  }

pub find_stream-IsUsable :
    (k : Core) (ss : List Http2Stream) (id : ℕ) {s : Http2Stream}
    → All (λ u. IsUsable k u.stream_id) ss
    → find_stream ss id ≡ some s
    → IsUsable k s.stream_id
unfolding find_stream
find_stream-IsUsable k [] id h e = absurd (cc e)
find_stream-IsUsable k (u ∷ us) id {s} h e = elim (Bool-cases (u.stream_id == id)) [
  | inl same ↦ let is : u ≡ s = ground arith in subst (λ v. IsUsable k v.stream_id) is h.0
  | inr other ↦
      let later : find_stream us id ≡ some s = ground arith in
      find_stream-IsUsable k us id h.1 later
]

pub store-IsOrderly :
    (k : Core) (s : Http2Stream)
    → IsOrderly k
    → IsUsable k s.stream_id
    → IsOrderly (record k { streams = store_stream k.streams s })
store-IsOrderly k s o h = record {
  parity = o.parity;
  positive = o.positive;
  own_ids = store-IsMap k.streams s o.own_ids;
  usable = store-All (IsUsable k) k.streams s o.usable h;
  in_range = o.in_range;
}

pub destroy-IsOrderly :
    (k : Core) (id : ℕ)
    → IsOrderly k
    → IsOrderly (record k { streams = destroy_stream k.streams id })
destroy-IsOrderly k id o = record {
  parity = o.parity;
  positive = o.positive;
  own_ids = destroy-IsMap k.streams id o.own_ids;
  usable = destroy-All (λ s. IsUsable k s.stream_id) k.streams id o.usable;
  in_range = o.in_range;
}

abbrev pub Orderly : Connection → Type 0
Orderly c = IsOrderly (core c)

-- The two sides of an equation of what the invariant reads.
pub Orderly-same : (c d : Connection) → core d ≡ core c → Orderly c → Orderly d
Orderly-same c d same o = subst IsOrderly (sym same) o

pub notify-core : (e : Event) (c : Connection) → core (notify e c) ≡ core c
notify-core e c = elim (Bool-cases c.settings.event_handler) [
  | inl on ↦ rw on refl
  | inr off ↦ rw off refl
]
