-- ===== src/Transport/State/Recent.antt =====
-- src/transport/mod.rs: the window of recent heartbeat sources, and the table of nodes.
use mathlib.Core.List.{append-nil, append_assoc}
use cyphal_service.Common.{
  ℕ, zero, suc, ◌+◌, ◌-◌, ◌^◌, ◌≤◌, ◌≡◌, refl, sym, ◌∙◌, ap, inl, inr, Bool-cases, ltb, Option,
  none, some, List, [], ◌∷◌, ◌++◌, arith, ◌==◌, if◌then◌else◌, length, drop, length-append,
  length-drop,
}
use cyphal_service.Common.Map
use cyphal_service.Common.Map.{get-insert}
use cyphal_service.Transport.State.{
  NodeEntry, WorkerState, trim, on_heartbeat, register_local_node, tick_local_node, silent_node,
  aged, increment_u32,
}

trim-drop : (xs : List ℕ) → trim xs ≡ drop (length xs - 8) xs
unfolding trim
trim-drop [] = refl
trim-drop (x ∷ xs) = elim (Bool-cases (ltb 8 (length (x ∷ xs)))) [
  | inl long ↦
      let e : suc (length xs) - 8 ≡ suc (length xs - 8) = ground arith in
      rw (long, e) (trim-drop xs)
  | inr short ↦ let e : suc (length xs) - 8 ≡ 0 = ground arith in rw (short, e)
]

-- A heartbeat, as the state sees it.
pub record Heartbeat : Type 0 where
  pub at : ℕ
  pub source : ℕ
  pub uptime : ℕ
  pub health : ℕ
  pub mode : ℕ

unfoldable pub hear : WorkerState → List Heartbeat → WorkerState
hear s [] = s
hear s (h ∷ hs) = hear (on_heartbeat s h.at h.source h.uptime h.health h.mode) hs

abbrev pub sources : List Heartbeat → List ℕ
sources [] = []
sources (h ∷ hs) = h.source ∷ sources hs

-- The last eight elements.
abbrev pub last_eight : List ℕ → List ℕ
last_eight xs = drop (length xs - 8) xs

on_heartbeat-recent :
    (s : WorkerState) (h : Heartbeat)
    → (on_heartbeat s h.at h.source h.uptime h.health h.mode).recent_heartbeat_sources
      ≡ last_eight (s.recent_heartbeat_sources ++ h.source ∷ [])
unfolding on_heartbeat
on_heartbeat-recent s h = trim-drop (s.recent_heartbeat_sources ++ h.source ∷ [])

drop-drop-append :
    (k : ℕ) (xs ys : List ℕ)
    → k ≤ length xs
    → (n : ℕ) → drop n (drop k xs ++ ys) ≡ drop (k + n) (xs ++ ys)
drop-drop-append zero xs ys h n = let e : 0 + n ≡ n = omega arith in rw e
drop-drop-append (suc k) [] ys h n = absurd (omega arith)
drop-drop-append (suc k) (x ∷ xs) ys h n =
    let e : suc k + n ≡ suc (k + n) = omega arith in rw e (drop-drop-append k xs ys (omega arith) n)

last_eight-window : (xs ys : List ℕ) → last_eight (last_eight xs ++ ys) ≡ last_eight (xs ++ ys)
last_eight-window xs ys =
    drop-drop-append (length xs - 8) xs ys (omega arith) (length (last_eight xs ++ ys) - 8)
    ∙ ap (λ n. drop n (xs ++ ys))
        (omega (
          arith,
          length-append (last_eight xs) ys,
          length-append xs ys,
          length-drop (length xs - 8) xs,
        ))

short-last_eight : (xs : List ℕ) → length xs ≤ 8 → last_eight xs ≡ xs
short-last_eight xs h = let e : length xs - 8 ≡ 0 = omega arith in rw e

length-last_eight : (xs : List ℕ) → length (last_eight xs) ≤ 8
length-last_eight xs = omega (arith, length-drop (length xs - 8) xs)

-- Whatever heartbeats arrive, a window of at most eight sources comes to hold the last eight of
-- those that it held and those that arrived, in order of arrival.
pub hear-last_eight :
    (s : WorkerState) (hs : List Heartbeat)
    → length s.recent_heartbeat_sources ≤ 8
    → (hear s hs).recent_heartbeat_sources ≡ last_eight (s.recent_heartbeat_sources ++ sources hs)
unfolding hear
hear-last_eight s [] h =
    sym (short-last_eight s.recent_heartbeat_sources h)
    ∙ ap last_eight (sym (append-nil s.recent_heartbeat_sources))
hear-last_eight s (x ∷ hs) h =
    let window = s.recent_heartbeat_sources ++ x.source ∷ [] in
    let s' = on_heartbeat s x.at x.source x.uptime x.health x.mode in
    let e : s'.recent_heartbeat_sources ≡ last_eight window = on_heartbeat-recent s x in
    hear-last_eight s' hs (rw e (length-last_eight window))
    ∙ ap (λ xs. last_eight (xs ++ sources hs)) e
    ∙ last_eight-window window (sources hs)
    ∙ ap last_eight (append_assoc s.recent_heartbeat_sources (x.source ∷ []) (sources hs))

-- Looking a node up after a heartbeat gives the heartbeat's fields for its source, and what was
-- there for any other node.
pub get-on_heartbeat :
    (s : WorkerState) (h : Heartbeat) (j : ℕ)
    → Map.get j (on_heartbeat s h.at h.source h.uptime h.health h.mode).observed_nodes ≡ (
        if h.source == j
        then some
            (record { node_id = h.source; uptime = h.uptime; health = h.health; mode = h.mode })
        else Map.get j s.observed_nodes)
unfolding on_heartbeat
get-on_heartbeat s h j = get-insert h.source j _ s.observed_nodes

-- The entry that the local node has, or gets: it shows in the list before its first heartbeat.
abbrev local_entry : WorkerState → ℕ → NodeEntry
local_entry s i = elim (Map.get i s.observed_nodes) [ none ↦ silent_node i | some n ↦ n ]

get-register_local_node :
    (s : WorkerState) (i j : ℕ)
    → Map.get j (register_local_node s i).observed_nodes
      ≡ (if i == j then some (local_entry s i) else Map.get j s.observed_nodes)
unfolding register_local_node
get-register_local_node s i j = ground (arith, get-insert i j (silent_node i) s.observed_nodes)

one_more : (n : ℕ) → increment_u32 n ≡ (if ltb n (2 ^ 32 - 1) then n + 1 else 2 ^ 32 - 1)
one_more n = ground arith

-- The local node's entry after a tick, from the entry that it had.
abbrev pub after_tick : ℕ → Option NodeEntry → NodeEntry
after_tick i none = record { node_id = i; uptime = 1; health = 0; mode = 0 }
after_tick i (some n) = record {
  node_id = n.node_id;
  uptime = if ltb n.uptime (2 ^ 32 - 1) then n.uptime + 1 else 2 ^ 32 - 1;
  health = n.health;
  mode = n.mode;
}

aged_entry :
    (i : ℕ) (o : Option NodeEntry)
    → aged (elim o [ none ↦ silent_node i | some n ↦ n ]) ≡ after_tick i o
aged_entry i none = refl
aged_entry i (some n) = ap (λ (u : ℕ). record n { uptime = u }) (one_more n.uptime)

-- A tick makes the local node's uptime one second longer, up to the largest u32, and keeps its
-- health and mode; a local node that has no entry gets one of uptime 1, health 0 and mode 0. Every
-- other node's entry stays.
pub get-tick_local_node :
    (s : WorkerState) (i j : ℕ)
    → Map.get j (tick_local_node s i).observed_nodes ≡ (
        if i == j
        then some (after_tick i (Map.get i s.observed_nodes))
        else Map.get j s.observed_nodes)
unfolding tick_local_node
get-tick_local_node s i j =
    let s' = register_local_node s i in
    ground (
      arith,
      get-register_local_node s i i,
      get-register_local_node s i j,
      get-insert i j (aged (local_entry s i)) s'.observed_nodes,
      aged_entry i (Map.get i s.observed_nodes),
    )
