-- ===== src/Tasks/Search.antt =====
-- The loops of kern/multitasking.c over the workers reach each of them once.
use native.Mathlib.Nat.{mod-eq_of_lt, add-mod_right}
use dumboss.Base.{
  ℕ, zero, suc, ◌+◌, ◌-◌, ◌%◌, ◌≤◌, ◌<◌, ◌≡◌, ◌≢◌, ◌⊎◌, refl, sym, ap, ◌∙◌, inl, inr, Bool, true,
  false, Option, none, some, List, [], ◌∷◌, ◌++◌, ◌==◌, ==_iff, if◌then◌else◌, ltb, Bool-cases,
  length, set, get_elem?, get_elem?-set_ne, get_elem?-set_self, length-set, lt-length_of_get_elem?,
  arith, Res, ok, panic,
}
use dumboss.Tasks.Queue.{TaskData}
use dumboss.Tasks.Workers.{add_task_inner, find_task_loop, find_task, find_core, get_worker_index}

-- The index of the worker that round `it` asks.
abbrev turn : ℕ → ℕ → ℕ → ℕ
turn it self count = if ltb (it + self) count then it + self else it + self - count

turn-eq : (it self count : ℕ) → it < count → self < count → (it + self) % count ≡ turn it self count
turn-eq it self count lt low = elim (Bool-cases (ltb (it + self) count)) [
  | inl inside ↦ rw inside (mod-eq_of_lt (ground arith))
  | inr outside ↦
      let split : it + self ≡ it + self - count + count = ground arith in
      rw outside (
        ap (λ z. z % count) split
        ∙ (add-mod_right (it + self - count) count ∙ mod-eq_of_lt (omega arith)))
]

-- Each worker has its round.
round : ℕ → ℕ → ℕ → ℕ
round k self count = if ltb k self then k + count - self else k - self

turn-round :
    (k self count : ℕ)
    → k < count
    → self < count
    → (round k self count < count) × (turn (round k self count) self count ≡ k)
unfolding round
turn-round k self count lt low = (ground arith, ground arith)

some_elem : {A : Type 0} (xs : List A) (i : ℕ) → i < length xs → (x : A) × (get_elem? xs i ≡ some x)
some_elem [] i lt = absurd (omega arith)
some_elem (x ∷ xs) zero lt = (x, refl)
some_elem (x ∷ xs) (suc i) lt = some_elem xs i (omega arith)

module _ {W T : Type 0} (dequeue_task : W → Option T × W) (self : ℕ) (workers : List W)
    (low : self < length workers) where
  abbrev asks : ℕ → ℕ
  asks it = (it + self) % length workers

  -- The worker of a round has no task, and its queue is as the call has left it.
  abbrev AskedInVain : List W → ℕ → Type 0
  AskedInVain now k =
      (w : W)
      → get_elem? workers k ≡ some w
      → ((dequeue_task w).0 ≡ none) × (get_elem? now k ≡ some (dequeue_task w).1)

  -- The search ends with a task of the first worker that has one, from the own on, and those behind
  -- it are as they were; or no worker has one. Those asked are each as one call has left them.
  abbrev pub Finds : Res (Option T × List W) → Type 0
  Finds r =
      ((workers' : List W) × (r ≡ ok (none, workers'))
        × (length workers' ≡ length workers)
        × ((k : ℕ) → AskedInVain workers' k))
      ⊎ ((workers' : List W) × (t : T) × (it : ℕ) × (w : W) × (r ≡ ok (some t, workers'))
          × (length workers' ≡ length workers)
          × (it < length workers)
          × (get_elem? workers (asks it) ≡ some w)
          × (dequeue_task w ≡ (some t, (dequeue_task w).1))
          × (get_elem? workers' (asks it) ≡ some (dequeue_task w).1)
          × ((i : ℕ) → i < it → AskedInVain workers' (asks i))
          × ((i : ℕ)
              → it < i
              → i < length workers
              → get_elem? workers' (asks i) ≡ get_elem? workers (asks i)))

  asks_apart : (i j : ℕ) → i < length workers → j < length workers → i ≢ j → asks i ≢ asks j
  asks_apart i j a b ne e =
      let both : turn i self (length workers) ≡ turn j self (length workers) =
        sym (turn-eq i self (length workers) a low) ∙ (e ∙ turn-eq j self (length workers) b low) in
      ground arith

  asks-lt : (i : ℕ) → i < length workers → asks i < length workers
  asks-lt i lt = rw (turn-eq i self (length workers) lt low) (ground arith)

  -- The round `it` changes no other round's worker.
  set-asks :
      (now : List W) (v : W) (it i : ℕ)
      → it < length workers
      → i < length workers
      → it ≢ i
      → get_elem? (set now (asks it) v) (asks i) ≡ get_elem? now (asks i)
  set-asks now v it i a b ne = get_elem?-set_ne now (asks it) (asks i) v (asks_apart it i a b ne)

  find_task_loop-Finds :
      (left it : ℕ) (now : List W)
      → left + it ≡ length workers
      → length now ≡ length workers
      → ((j : ℕ)
          → it ≤ j
          → j < length workers
          → get_elem? now (asks j) ≡ get_elem? workers (asks j))
      → ((i : ℕ) → i < it → AskedInVain now (asks i))
      → Finds (find_task_loop dequeue_task left it self (length workers) now)
  unfolding find_task_loop
  find_task_loop-Finds zero it now end size same before = inl (
    now,
    refl,
    size,
    λ k w e.
        let r = round k self (length workers) in
        let (lt, at) =
          turn-round k self (length workers) (lt-length_of_get_elem? workers k e) low in
        let here : asks r ≡ k = turn-eq r self (length workers) lt low ∙ at in
        let (nothing, left_so) = before r (omega arith) w (ap (get_elem? workers) here ∙ e) in
        (nothing, ap (get_elem? now) (sym here) ∙ left_so),
  )
  find_task_loop-Finds (suc left) it now end size same before =
      let lt : it < length workers = omega arith in
      let (w, e) = some_elem workers (asks it) (asks-lt it lt) in
      let found : get_elem? now (asks it) ≡ some w = same it (omega arith) lt ∙ e in
      let now' = set now (asks it) (dequeue_task w).1 in
      let size' = length-set now (asks it) (dequeue_task w).1 ∙ size in
      let put : get_elem? now' (asks it) ≡ some (dequeue_task w).1 =
        get_elem?-set_self now (asks it) (dequeue_task w).1 (rw size (asks-lt it lt)) in
      let behind = λ (j : ℕ) (from : it < j) (to : j < length workers).
        set-asks now (dequeue_task w).1 it j lt to (omega arith) ∙ same j (omega arith) to in
      let before' : (i : ℕ) → i < it → AskedInVain now' (asks i) = λ i small v f.
        let (nothing, left_so) = before i small v f in
        (nothing, set-asks now (dequeue_task w).1 it i lt (omega arith) (omega arith) ∙ left_so) in
      rw found (
        go w e (dequeue_task w).0 refl size' put before' behind (λ d.
          find_task_loop-Finds left (it + 1) now' (omega arith) size'
            (λ j from to. behind j (omega arith) to)
            (λ i small v f. elim (Bool-cases (i == it)) [
              | inl here ↦
                  let at = (==_iff i it).0 here in
                  let same_worker : some v ≡ some w =
                    sym f ∙ (ap (λ z. get_elem? workers (asks z)) at ∙ e) in
                  let same_one : v ≡ w = cc in
                  (
                    ap (λ z. (dequeue_task z).0) same_one ∙ d,
                    ap (λ z. get_elem? now' (asks z)) at
                        ∙ (put ∙ ap (λ z. some (dequeue_task z).1) (sym same_one)),
                  )
              | inr other ↦ before' i (ground arith) v f
            ])))
    where
      go :
          (w : W)
          → get_elem? workers (asks it) ≡ some w
          → (o : Option T) → (dequeue_task w).0 ≡ o
          → let now' = set now (asks it) (dequeue_task w).1 in
            length now' ≡ length workers
            → get_elem? now' (asks it) ≡ some (dequeue_task w).1
            → ((i : ℕ) → i < it → AskedInVain now' (asks i))
            → ((j : ℕ)
                → it < j
                → j < length workers
                → get_elem? now' (asks j) ≡ get_elem? workers (asks j))
            → ((dequeue_task w).0 ≡ none
                → Finds (find_task_loop dequeue_task left (it + 1) self (length workers) now'))
            → Finds (elim o [
              | none ↦ find_task_loop dequeue_task left (it + 1) self (length workers) now'
              | some t ↦ ok (some t, now')
            ])
      go w e none d size' put before' behind rest = rest d
      go w e (some t) d size' put before' behind rest = inr (
        set now (asks it) (dequeue_task w).1,
        t,
        it,
        w,
        refl,
        size',
        omega arith,
        e,
        ap (λ z. (z, (dequeue_task w).1)) d,
        put,
        before',
        behind,
      )

  -- From its own queue on, `task_main` asks the workers in the order of their indices and round to the
  -- first, until one has a task, and returns that task; where none has, it has asked them all. Each
  -- worker asked is as one call of `dequeue_task` leaves it, and those not asked are as they were.
  pub find_task-Finds : Finds (find_task dequeue_task self workers)
  unfolding find_task
  find_task-Finds =
      find_task_loop-Finds (length workers) 0 workers (omega arith) refl (λ j from to. refl)
        (λ i small. absurd (omega arith))

module _ {W : Type 0} (enqueue_task : W → TaskData → Bool × W) (content : TaskData) where
  -- The workers behind a call of `enqueue_task` for each of them.
  abbrev pub asked : List W → List W
  asked [] = []
  asked (w ∷ workers) = (enqueue_task w content).1 ∷ asked workers

  abbrev pub AllRefuse : List W → Type 0
  AllRefuse [] = Unit
  AllRefuse (w ∷ workers) = ((enqueue_task w content).0 ≡ false) × AllRefuse workers

  -- The task goes to the first worker that takes it, and those behind it are not asked; or all have
  -- been asked and none takes it.
  abbrev pub Adds : List W → Bool × List W → Type 0
  Adds workers r =
      ((r ≡ (false, asked workers)) × AllRefuse workers)
      ⊎ ((before after : List W) × (w : W) × (workers ≡ before ++ (w ∷ after))
          × AllRefuse before
          × ((enqueue_task w content).0 ≡ true)
          × (r ≡ (true, asked before ++ ((enqueue_task w content).1 ∷ after))))

  -- `add_task_inner` asks the workers in order until one takes the task, and returns whether one has.
  pub add_task_inner-Adds :
      (workers : List W) → Adds workers (add_task_inner enqueue_task workers content)
  unfolding add_task_inner
  add_task_inner-Adds [] = inl (refl, tt)
  add_task_inner-Adds (w ∷ workers) = elim (Bool-cases (enqueue_task w content).0) [
    | inl taken ↦ inr ([], workers, w, refl, tt, taken, rw taken refl)
    | inr refused ↦ elim (add_task_inner-Adds workers) [
      | inl (e, all) ↦ inl (rw (refused, e) refl, (refused, all))
      | inr (before, after, v, split, all, taken, e) ↦
          inr (
            w ∷ before,
            after,
            v,
            ap (λ z. w ∷ z) split,
            (refused, all),
            taken,
            rw (refused, e) refl,
          )
    ]
  ]

-- The first worker of a core, its index counted from `index` on; or there is none.
abbrev pub IsIndex : ℕ → ℕ → List ℕ → Res ℕ → Type 0
IsIndex id index workers r =
    ((k : ℕ) × (r ≡ ok (index + k))
      × (get_elem? workers k ≡ some id)
      × ((i : ℕ) → i < k → get_elem? workers i ≢ some id))
    ⊎ ((r ≡ panic) × ((k : ℕ) → get_elem? workers k ≢ some id))

by_first : (P : ℕ → Type 0) → P zero → ((i : ℕ) → P (suc i)) → (i : ℕ) → P i
by_first P first later zero = first
by_first P first later (suc i) = later i

find_core-IsIndex :
    (id index : ℕ) (workers : List ℕ) → IsIndex id index workers (find_core id index workers)
unfolding find_core
find_core-IsIndex id index [] = inr (refl, λ k e. cc)
find_core-IsIndex id index (c ∷ workers) = elim (Bool-cases (c == id)) [
  | inl here ↦
      let at : c ≡ id = (==_iff c id).0 here in
      inl (0, rw here (ap ok (omega arith)), ap some at, λ i small. absurd (omega arith))
  | inr other ↦
      let first : get_elem? (c ∷ workers) zero ≢ some id =
        λ e. let same : c ≡ id = cc in ground arith in
      elim (find_core-IsIndex id (index + 1) workers) [
        | inl (k, e, found, before) ↦
            let sum : index + 1 + k ≡ index + suc k = omega arith in
            inl (
              suc k,
              rw other (e ∙ ap ok sum),
              found,
              by_first (λ i. i < suc k → get_elem? (c ∷ workers) i ≢ some id) (λ small. first)
                  (λ i small. before i (omega arith)),
            )
        | inr (e, none_there) ↦
            inr (rw other e, by_first (λ i. get_elem? (c ∷ workers) i ≢ some id) first none_there)
      ]
]

-- `get_worker_index` returns the index of the first worker of the core, and exits where there is
-- none.
pub get_worker_index-IsIndex :
    (id : ℕ) (workers : List ℕ) → IsIndex id 0 workers (get_worker_index id workers)
unfolding get_worker_index
get_worker_index-IsIndex id workers = find_core-IsIndex id 0 workers
