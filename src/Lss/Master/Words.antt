-- ===== src/Lss/Master/Words.antt =====
-- The fast scan finds a word bit by bit: the bits found so far are always those of some slave that
-- still listens.
use mathlib.Core.Path.{subst}
use zencan.Base.{
  ℕ, zero, suc, ◌*◌, ◌/◌, ◌^◌, ◌≤◌, ◌<◌, ◌≡◌, ◌≢◌, ◌∙◌, ap, sym, refl, true, false, List, arith,
  bit_or, ◌==◌, Bool-cases, ==_iff, inl, inr, All, length,
}
use zencan.Base.Bits.{IsU32}
use zencan.Base.Search.{any, Any, any-Any, Any-map_fail, All-imp, Any-imp, Any-elim}
use zencan.Lss.Master.Binary.{
  LowZero, LowZero-next, set_bit, byte-or_at, byte-or_at_other, length-or_at,
}
use zencan.Sdo.Wire.{byte}
use zencan.Lss.{LssSlave}
use zencan.Lss.Master.{or_at, scan_bits}
use zencan.Lss.Master.Bus.{Slave, bus}
use zencan.Lss.Master.Answer.{word, listens, IsQuiet, hit}
use zencan.Lss.Master.Send.{master, hits, sent_same}

quotient_le : (v d : ℕ) → v / d * d ≤ v
quotient_le v d = grind arith

-- The words before `sub` are those of the slave.
abbrev pub Before : List ℕ → ℕ → Slave → Type 0
Before id sub node = (j : ℕ) → j < sub → word node.slave.config.identity j ≡ byte id j

-- A slave that has answered for every word before `sub` has these words.
pub record Tracks (id : List ℕ) (sub : ℕ) (node : Slave) : Type 0 where
  pub quiet : IsQuiet node
  pub not_ahead : listens node.slave ≡ true → node.slave.fast_scan_sub ≤ sub
  pub before : listens node.slave ≡ true → node.slave.fast_scan_sub ≡ sub → Before id sub node

-- A slave that has the word `sub` as well, from bit `k` up.
pub record Agrees (id : List ℕ) (sub k : ℕ) (node : Slave) : Type 0 where
  pub listening : listens node.slave ≡ true
  pub at_sub : node.slave.fast_scan_sub ≡ sub
  pub earlier : Before id sub node
  pub here : word node.slave.config.identity sub / 2 ^ k ≡ byte id sub / 2 ^ k

-- What is known of the words while the bits from `k` up of the word `sub` are found.
pub record IsScanned (id : List ℕ) (sub k : ℕ) (nodes : List Slave) : Type 0 where
  pub four : length id ≡ 4
  pub low : LowZero k (byte id sub)
  pub later : (j : ℕ) → sub < j → byte id j ≡ 0
  pub in_range : (j : ℕ) → IsU32 (byte id j)
  pub tracked : All (Tracks id sub) nodes
  pub found : Any (Agrees id sub k) nodes

pub hit_parts :
    (id b sub : ℕ) (slave : LssSlave)
    → hit id b sub slave ≡ true
    → (listens slave ≡ true)
      × (slave.fast_scan_sub ≡ sub)
      × (word slave.config.identity sub / 2 ^ b ≡ id / 2 ^ b)
hit_parts id b sub slave h = ground arith

miss_differs :
    (id b sub : ℕ) (slave : LssSlave)
    → listens slave ≡ true
    → slave.fast_scan_sub ≡ sub
    → hit id b sub slave ≡ false
    → word slave.config.identity sub / 2 ^ b ≢ id / 2 ^ b
miss_differs id b sub slave listening at miss = ground arith

hit-Agrees :
    (id : List ℕ) (sub b : ℕ) (node : Slave)
    → Tracks id sub node
    → hits id b sub node ≡ true
    → Agrees id sub b node
hit-Agrees id sub b node t h =
    let (listening, at, here) = hit_parts (byte id sub) b sub node.slave h in
    record { listening = listening; at_sub = at; earlier = t.before listening at; here = here }

bit_heard :
    (id : List ℕ) (sub b : ℕ) (nodes : List Slave)
    → any (hits id b sub) nodes ≡ true
    → IsScanned id sub (suc b) nodes
    → IsScanned id sub b nodes
bit_heard id sub b nodes heard s = record {
  four = s.four;
  low = LowZero-next b (byte id sub) s.low;
  later = s.later;
  in_range = s.in_range;
  tracked = s.tracked;
  found =
      any-Any (hits id b sub) (Tracks id sub) (Agrees id sub b) nodes (hit-Agrees id sub b)
        s.tracked heard;
}

module _ (id : List ℕ) (sub b : ℕ) (four : length id ≡ 4) (hs : sub < 4)
    (low : LowZero (suc b) (byte id sub)) where
  set_word : byte (or_at id sub (2 ^ b)) sub ≡ bit_or (byte id sub) (2 ^ b)
  set_word = byte-or_at id sub (2 ^ b) (omega arith)

  earlier_words : (j : ℕ) → j < sub → byte (or_at id sub (2 ^ b)) j ≡ byte id j
  earlier_words j h = byte-or_at_other id sub j (2 ^ b) (omega arith)

  later_words : (j : ℕ) → sub < j → byte (or_at id sub (2 ^ b)) j ≡ byte id j
  later_words j h = byte-or_at_other id sub j (2 ^ b) (omega arith)

  set-Tracks : (node : Slave) → Tracks id sub node → Tracks (or_at id sub (2 ^ b)) sub node
  set-Tracks node t = record {
    quiet = t.quiet;
    not_ahead = t.not_ahead;
    before = λ listening at j h. t.before listening at j h ∙ sym (earlier_words j h);
  }

  missed_bit :
      (node : Slave)
      → Agrees id sub (suc b) node
      → hits id b sub node ≡ false
      → (word node.slave.config.identity sub / 2 ^ b ≡ bit_or (byte id sub) (2 ^ b) / 2 ^ b)
        × LowZero b (bit_or (byte id sub) (2 ^ b))
  missed_bit node a miss =
      set_bit b (word node.slave.config.identity sub) (byte id sub) low a.here
        (miss_differs (byte id sub) b sub node.slave a.listening a.at_sub miss)

  miss-Agrees :
      (node : Slave)
      → Tracks id sub node
      → Agrees id sub (suc b) node
      → hits id b sub node ≡ false
      → Agrees (or_at id sub (2 ^ b)) sub b node
  miss-Agrees node t a miss = record {
    listening = a.listening;
    at_sub = a.at_sub;
    earlier = λ j h. a.earlier j h ∙ sym (earlier_words j h);
    here = rw set_word (missed_bit node a miss).0;
  }

  -- The new word is no more than the one that is searched for.
  set_range :
      (node : Slave)
      → Tracks id sub node
      → Agrees (or_at id sub (2 ^ b)) sub b node
      → LowZero b (byte (or_at id sub (2 ^ b)) sub)
      → IsU32 (byte (or_at id sub (2 ^ b)) sub)
  set_range node t a low' = omega (
    arith,
    t.quiet.words sub,
    low',
    ap (λ q. q * 2 ^ b) a.here,
    quotient_le (word node.slave.config.identity sub) (2 ^ b),
  )

  set_in_range :
      ((j : ℕ) → IsU32 (byte id j))
      → IsU32 (byte (or_at id sub (2 ^ b)) sub)
      → (j : ℕ) → IsU32 (byte (or_at id sub (2 ^ b)) j)
  set_in_range old new j = elim (Bool-cases (j == sub)) [
    | inl same ↦
        subst (λ k. IsU32 (byte (or_at id sub (2 ^ b)) k)) (sym ((==_iff j sub).0 same)) new
    | inr other ↦ rw (byte-or_at_other id sub j (2 ^ b) (ground arith)) (old j)
  ]

bit_missed :
    (id : List ℕ) (sub b : ℕ) (nodes : List Slave)
    → sub < 4
    → any (hits id b sub) nodes ≡ false
    → IsScanned id sub (suc b) nodes
    → IsScanned (or_at id sub (2 ^ b)) sub b nodes
bit_missed id sub b nodes hs missed s =
    let id' = or_at id sub (2 ^ b) in
    let found : Any (λ node. Agrees id' sub b node × LowZero b (byte id' sub)) nodes =
      Any-map_fail (hits id b sub) (Tracks id sub) (Agrees id sub (suc b))
        (λ node. Agrees id' sub b node × LowZero b (byte id' sub)) nodes
        (λ node t a miss. (
          miss-Agrees id sub b s.four hs s.low node t a miss,
          rw (set_word id sub b s.four hs s.low)
              (missed_bit id sub b s.four hs s.low node a miss).1,
        ))
        s.tracked missed s.found in
    record {
      four = length-or_at id sub (2 ^ b) ∙ s.four;
      low =
          Any-elim (Tracks id sub) (λ node. Agrees id' sub b node × LowZero b (byte id' sub)) nodes
            (λ node t a. a.1) s.tracked found;
      later = λ j h. later_words id sub b s.four hs s.low j h ∙ s.later j h;
      in_range = set_in_range id sub b s.four hs s.low s.in_range (
          Any-elim (Tracks id sub) (λ node. Agrees id' sub b node × LowZero b (byte id' sub)) nodes
            (λ node t a. set_range id sub b s.four hs s.low node t a.0 a.1) s.tracked found);
      tracked =
          All-imp (Tracks id sub) (Tracks id' sub) nodes (set-Tracks id sub b s.four hs s.low)
            s.tracked;
      found =
          Any-imp (λ node. Agrees id' sub b node × LowZero b (byte id' sub)) (Agrees id' sub b)
            nodes (λ node a. a.0) found;
    }

-- All bits below `k` of a word.
pub scan_bits-IsScanned :
    (k : ℕ) (id : List ℕ) (sub : ℕ) (nodes : List Slave)
    → k ≤ 32
    → sub < 4
    → IsScanned id sub k nodes
    → ((scan_bits bus k id sub sub (master nodes)).1 ≡ master nodes)
      × IsScanned (scan_bits bus k id sub sub (master nodes)).0 sub 0 nodes
unfolding scan_bits
scan_bits-IsScanned zero id sub nodes hk hs s = (refl, s)
scan_bits-IsScanned (suc b) id sub nodes hk hs s =
    let sent =
      sent_same id b sub nodes (s.in_range sub) (omega arith) hs
        (All-imp (Tracks id sub) IsQuiet nodes (λ node t. t.quiet) s.tracked) in
    rw (sent, scan_bits)
      (elim (Bool-cases (any (hits id b sub) nodes)) [
        | inl heard ↦
            rw heard (
              scan_bits-IsScanned b id sub nodes (omega arith) hs
                (bit_heard id sub b nodes heard s))
        | inr missed ↦ rw missed (
            scan_bits-IsScanned b (or_at id sub (2 ^ b)) sub nodes (omega arith) hs
              (bit_missed id sub b nodes hs missed s))
      ])
