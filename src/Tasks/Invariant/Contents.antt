-- ===== src/Tasks/Invariant/Contents.antt =====
-- An access keeps what the slots hold, and every identifier to one task.
use dumboss.Base.{update, ℕ, ◌≤◌, ◌<◌, ◌≡◌, true, false, none, some, arith}
use dumboss.Tasks.Queue.{
  Queue, Pc, Move, claim_task, number, store_id, store_content, publish, vacate,
}
use dumboss.Tasks.Invariant.Defs.{drawn, Agrees, full, Inv}

module _ {n : ℕ} {q : Queue} {pc : ℕ → Pc} (inv : Inv n q pc) (i : ℕ) where
  open inv use {marked, owner, new, drawer, unused, unsent, agrees, stored, distinct}

  pub Move-new :
      {p p' : Pc} {q' : Queue}
      → Move n q p q' p'
      → pc i ≡ p
      → (j id : ℕ) → drawn (update pc i p' j) ≡ some id
      → (id < q'.next_id) × (q'.sent id ≡ none)
  Move-new number e j id d = ground (arith, new j id, unused id)
  Move-new mv e j id d = ground (arith, new j id, new i id, drawer i j id)

  pub Move-drawer :
      {p p' : Pc} {q' : Queue}
      → Move n q p q' p'
      → pc i ≡ p
      → (a b id : ℕ) → drawn (update pc i p' a) ≡ some id
      → drawn (update pc i p' b) ≡ some id
      → a ≡ b
  Move-drawer number e a b id da db = ground (arith, new a id, new b id, drawer a b id)
  Move-drawer mv e a b id da db = ground (arith, drawer a b id, drawer i a id, drawer i b id)

  pub Move-unused :
      {p p' : Pc} {q' : Queue}
      → Move n q p q' p'
      → pc i ≡ p
      → (id : ℕ) → q'.next_id ≤ id
      → q'.sent id ≡ none
  Move-unused number e id le = ground (arith, unused id)
  Move-unused (publish {id = other}) e id le = ground (arith, unused id, new i other)
  Move-unused mv e id le = ground (arith, unused id)

  pub Move-unsent :
      {p p' : Pc} {q' : Queue}
      → Move n q p q' p'
      → pc i ≡ p
      → (id : ℕ) → q'.sent id ≡ none
      → q'.taken id ≡ false
  Move-unsent (vacate {k = k}) e id none_sent =
      ground (arith, unsent id, stored k, marked i k, agrees i)
  Move-unsent mv e id none_sent = ground (arith, unsent id)

  pub Move-Agrees :
      {p p' : Pc} {q' : Queue}
      → Move n q p q' p'
      → pc i ≡ p
      → (j : ℕ) → Agrees q' (update pc i p' j)
  Move-Agrees (store_id {k = k}) e j = ground (arith, agrees j, owner i j k)
  Move-Agrees (store_content {k = k}) e j = ground (arith, agrees j, agrees i, owner i j k)
  Move-Agrees mv e j = ground (arith, agrees j, agrees i)

  pub Move-stored :
      {p p' : Pc} {q' : Queue}
      → Move n q p q' p'
      → pc i ≡ p
      → (k : ℕ) → full (q'.tasks k).sync_info ≡ true
      → (q'.sent (q'.tasks k).id ≡ some (q'.tasks k).content) × (q'.taken (q'.tasks k).id ≡ false)
  Move-stored (claim_task g) e k f = ground (arith, stored k)
  Move-stored (publish {k = slot} {id = id}) e k f =
      ground (arith, stored k, agrees i, new i id, unsent id)
  Move-stored (vacate {k = slot} {id = id}) e k f =
      ground (arith, stored k, agrees i, marked i slot, distinct k slot)
  Move-stored (store_id {k = slot}) e k f = ground (arith, stored k, marked i slot)
  Move-stored (store_content {k = slot}) e k f = ground (arith, stored k, marked i slot)
  Move-stored mv e k f = ground (arith, stored k)

  pub Move-distinct :
      {p p' : Pc} {q' : Queue}
      → Move n q p q' p'
      → pc i ≡ p
      → (k l : ℕ) → full (q'.tasks k).sync_info ≡ true
      → full (q'.tasks l).sync_info ≡ true
      → (q'.tasks k).id ≡ (q'.tasks l).id
      → k ≡ l
  Move-distinct (claim_task g) e k l fk fl same = ground (arith, distinct k l)
  Move-distinct (publish {k = slot} {id = id}) e k l fk fl same =
      ground (arith, distinct k l, stored k, stored l, agrees i, new i id)
  Move-distinct (store_id {k = slot}) e k l fk fl same = ground (arith, distinct k l, marked i slot)
  Move-distinct (store_content {k = slot}) e k l fk fl same =
      ground (arith, distinct k l, marked i slot)
  Move-distinct mv e k l fk fl same = ground (arith, distinct k l)
