-- ===== src/NmtMaster/Table.antt =====
-- What a heartbeat does to the table of nodes.
use zencan.Base.{
  ℕ, ◌+◌, ◌-◌, ◌<◌, ◌≡◌, ◌⊎◌, inl, inr, refl, sym, ap, ◌∙◌, true, false, List, [], ◌∷◌, ◌++◌, All,
  length, length-append, append_assoc, arith, ltb, ◌==◌, ◌||◌,
}
use zencan.Nmt.{Heartbeat}
use zencan.NmtMaster.{MasterNode, node_at, put, shift, handle_from, handle_heartbeat}

-- An entry before the place of a node.
abbrev pub IsBelow : ℕ → MasterNode → Type 0
IsBelow id entry = (0 < entry.id) × (entry.id < id)

-- The entry for a heartbeat that is heard.
abbrev pub heard_at : ℕ → Heartbeat → MasterNode
heard_at now beat = record {
  id = beat.node;
  state = beat.state;
  last_status = now;
  last_toggle = beat.toggle;
}

node_at-append :
    (before : List MasterNode) (x : MasterNode) (after : List MasterNode)
    → node_at (before ++ (x ∷ after)) (length before) ≡ x
unfolding node_at
node_at-append [] x after = refl
node_at-append (y ∷ before) x after = node_at-append before x after

put-append :
    (before : List MasterNode) (x y : MasterNode) (after : List MasterNode)
    → put (length before) y (before ++ (x ∷ after)) ≡ before ++ (y ∷ after)
unfolding put
put-append [] x y after = refl
put-append (z ∷ before) x y after = ap (◌∷◌ z) (put-append before x y after)

-- The range of the shift has no number.
shift_none :
    (i : ℕ) (nodes : List MasterNode)
    → i < length nodes
    → shift (i - (length nodes - 1)) (length nodes - 1) nodes ≡ nodes
unfolding shift
shift_none i nodes h = let empty : i - (length nodes - 1) ≡ 0 = omega arith in rw empty refl

differs : (a b : ℕ) → 0 < b → (a ≡ 0) ⊎ (b < a) → (a == b) ≡ false
differs a b h (inl zero_a) = ground arith
differs a b h (inr above) = ground arith

is_place : (a b : ℕ) → (a ≡ 0) ⊎ (b < a) → ((a == 0) || ltb b a) ≡ true
is_place a b (inl zero_a) = ground arith
is_place a b (inr above) = ground arith

not_place : (a b : ℕ) → 0 < a → a < b → ((a == 0) || ltb b a) ≡ false
not_place a b h l = ground arith

handle_from-below :
    (before lower : List MasterNode) (entry heard : MasterNode) (rest : List MasterNode)
    → All (IsBelow heard.id) lower
    → 0 < heard.id
    → (entry.id ≡ heard.id) ⊎ ((entry.id ≡ 0) ⊎ (heard.id < entry.id))
    → handle_from
        (length (lower ++ (entry ∷ rest)))
        (length before)
        heard
        (before ++ (lower ++ (entry ∷ rest)))
      ≡ before ++ (lower ++ (heard ∷ rest))
unfolding handle_from
handle_from-below before [] entry heard rest below some_id (inl same) =
    let found : (entry.id == heard.id) ≡ true = ground arith in
    rw (node_at-append before entry rest, found, put-append before entry _ rest)
      (ap (λ i. before ++ (record heard { id = i } ∷ rest)) same)
handle_from-below before [] entry heard rest below some_id (inr other) =
    let not_found : (entry.id == heard.id) ≡ false = differs entry.id heard.id some_id other in
    let here : ((entry.id == 0) || ltb heard.id entry.id) ≡ true =
      is_place entry.id heard.id other in
    let room : length before < length (before ++ (entry ∷ rest)) =
      omega (arith, length-append before (entry ∷ rest)) in
    rw
      (
        node_at-append before entry rest,
        not_found,
        here,
        shift_none (length before) (before ++ (entry ∷ rest)) room,
        put-append before entry heard rest,
      )
      refl
handle_from-below before (x ∷ lower) entry heard rest ((nonzero, less), below) some_id place =
    let not_found : (x.id == heard.id) ≡ false = ground arith in
    let not_here : ((x.id == 0) || ltb heard.id x.id) ≡ false =
      not_place x.id heard.id nonzero less in
    let next = handle_from-below (before ++ (x ∷ [])) lower entry heard rest below some_id place in
    let count : length (before ++ (x ∷ [])) ≡ length before + 1 = length-append before (x ∷ []) in
    rw (node_at-append before x (lower ++ (entry ∷ rest)), not_found, not_here)
      (ap
          (λ i.
            handle_from (length (lower ++ (entry ∷ rest))) i heard
              (before ++ (x ∷ (lower ++ (entry ∷ rest)))))
          (sym count)
        ∙ ap (handle_from (length (lower ++ (entry ∷ rest))) (length (before ++ (x ∷ []))) heard)
            (sym (append_assoc before (x ∷ []) (lower ++ (entry ∷ rest))))
        ∙ next
        ∙ append_assoc before (x ∷ []) (lower ++ (heard ∷ rest)))

-- A heartbeat takes the place of the first entry that is not below its node: the entry of the node
-- itself, an empty one, or that of a node with a higher ID, which is lost. Nothing else changes.
pub handle_heartbeat-below :
    (now : ℕ) (beat : Heartbeat) (lower : List MasterNode) (entry : MasterNode)
    (rest : List MasterNode)
    → All (IsBelow beat.node) lower
    → 0 < beat.node
    → (entry.id ≡ beat.node) ⊎ ((entry.id ≡ 0) ⊎ (beat.node < entry.id))
    → handle_heartbeat now beat (lower ++ (entry ∷ rest)) ≡ lower ++ (heard_at now beat ∷ rest)
unfolding handle_heartbeat
handle_heartbeat-below now beat lower entry rest below some_id place =
    handle_from-below [] lower entry (heard_at now beat) rest below some_id place
