-- ===== src/Memory/Freelist.antt =====
-- kern/memory.c: `pop_freelist`, `remove_from_freelist` and `add_to_freelist`, on the doubly linked
-- list of a size class. The log lines before a failed assertion are left out.
use dumboss.Base.{
  ℕ, ◌*◌, ◌%◌, ◌^◌, not, ltb, ◌==◌, if◌then◌else◌, Res, ok, ◌>>=◌, ◌>>◌, assert, load,
}
use dumboss.Memory.{Mem, class_count, page_size, null, update, set_blocks, set_freelist, is_aligned}
use dumboss.Memory.Address.{kernel_ptr}

-- `p->next = q` and `p->prev = q`.
abbrev pub set_next : Mem → ℕ → ℕ → Mem
set_next m p q = set_blocks m (update m.blocks p (record (m.blocks p) { next = q }))

abbrev pub set_prev : Mem → ℕ → ℕ → Mem
set_prev m p q = set_blocks m (update m.blocks p (record (m.blocks p) { prev = q }))

unfoldable pub pop_freelist : Mem → ℕ → Res (ℕ × Mem)
pop_freelist m class = do
  assert (ltb class class_count)
  info ← load m.classes class
  let block = info.freelist
  assert (not (block == null))
  assert ((m.blocks block).size_class == class)
  assert ((m.blocks block).prev == null)
  let next = (m.blocks block).next
  m' ← set_freelist m class next
  ok (block, if next == null then m' else set_prev m' next null)

unfoldable pub remove_from_freelist : Mem → ℕ → ℕ → Res Mem
remove_from_freelist m page class = do
  assert (ltb class class_count)
  is_aligned page (2 ^ class)
  block ← kernel_ptr (page * page_size % 2 ^ 64)
  assert ((m.blocks block).size_class == class)
  info ← load m.classes class
  let prev = (m.blocks block).prev
  let next = (m.blocks block).next
  let m' = if next == null then m else set_prev m next prev
  if prev == null
      then (do assert (info.freelist == block); set_freelist m' class next)
      else ok (set_next m' prev next)

unfoldable pub add_to_freelist : Mem → ℕ → ℕ → Res Mem
add_to_freelist m page class = do
  assert (ltb class class_count)
  is_aligned page (2 ^ class)
  block ← kernel_ptr (page * page_size % 2 ^ 64)
  info ← load m.classes class
  let m' =
      set_blocks m
        (update m.blocks block (record { next = info.freelist; prev = null; size_class = class }))
  let m'' = if info.freelist == null then m' else set_prev m' info.freelist block
  set_freelist m'' class block
