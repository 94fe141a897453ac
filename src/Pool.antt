-- ===== src/Pool.antt =====
-- MemPool.c: fixed-size units in one block of memory, on two doubly linked lists. A unit's address
-- stands for its two pointers; 0 is NULL. The spinlock makes each call one step.
pub mod Dll
pub mod Unlink
pub mod Inv
pub mod Init
pub mod Ops
pub mod Reach
mod Tests
use xyz.Prelude.{
  ℕ, zero, suc, ◌+◌, ◌-◌, ◌*◌, ◌%◌, ◌^◌, Bool, true, false, ◌&&◌, ◌||◌, List, [], ◌∷◌, Option, none,
  some, ◌==◌, ltb, if◌then◌else◌,
}

-- `pPrev` and `pNext` of the unit at each address.
pub record Links : Type 0 where
  pub prev : ℕ → ℕ
  pub next : ℕ → ℕ

-- `struct MemPool`, with the memory that it manages.
pub record Pool : Type 0 where
  pub block : ℕ
  pub alloc : ℕ
  pub free : ℕ
  pub unit_size : ℕ
  pub block_size : ℕ
  pub len_alloc : ℕ
  pub len_free : ℕ
  pub links : Links

abbrev pub upd : (ℕ → ℕ) → ℕ → ℕ → ℕ → ℕ
upd f a v q = if q == a then v else f q

-- sizeof(struct _unit)
abbrev pub header : ℕ
header = 16

-- `unsigned long`
abbrev pub ulong : ℕ → ℕ
ulong x = x % 2 ^ 64

-- pPrev = NULL; pNext = head; if (head != NULL) head->pPrev = unit;
pub push_front : Links → ℕ → ℕ → Links
push_front l unit head = record {
  prev = if head == 0 then upd l.prev unit 0 else upd (upd l.prev unit 0) head unit;
  next = upd l.next unit head;
}

-- The new head of a list that loses its first unit has no predecessor.
pub pop_front : Links → ℕ → Links
pop_front l unit = record l {
  prev = if l.next unit == 0 then l.prev else upd l.prev (l.next unit) 0;
}

-- The neighbours of a unit are linked to one another.
pub unlink : Links → ℕ → Links
unlink l unit = record {
  prev = if l.next unit == 0 then l.prev else upd l.prev (l.next unit) (l.prev unit);
  next = if l.prev unit == 0 then l.next else upd l.next (l.prev unit) (l.next unit);
}

-- The loop of `mpool_alloc`: `n` units are left, the first of them number `i`.
pub init_units : ℕ → ℕ → ℕ → ℕ → ℕ → Links → Links × ℕ
init_units zero i block stride free l = (l, free)
init_units (suc n) i block stride free l =
    init_units n (i + 1) block stride (block + i * stride) (push_front l (block + i * stride) free)

-- `memory` is what `malloc` returns, NULL or the block.
pub mpool_alloc : ℕ → ℕ → ℕ → Pool → Pool × ℕ
unfolding init_units
mpool_alloc memory unit_size unit_num p =
    let empty = record p {
      block = memory;
      alloc = 0;
      free = 0;
      block_size = ulong (unit_num * (unit_size + header));
      unit_size = unit_size;
    } in
    if memory == 0
    then (empty, 0)
    else (let (l, free) = init_units unit_num 0 memory (unit_size + header) 0 p.links in
        (
          record empty {
            free = free;
            links = l;
            len_free = ulong (unit_num * (unit_size + header));
            len_alloc = 0;
          },
          memory,
        ))

pub mpool_get : Pool → ℕ → Pool × ℕ
mpool_get p use_mem_pool =
    if use_mem_pool == 0 || p.block == 0 then (p, 0) else if p.free == 0 then (p, 0) else (
      record p {
        free = p.links.next p.free;
        alloc = p.free;
        links = push_front (pop_front p.links p.free) p.free p.alloc;
        len_alloc = ulong (p.len_alloc + p.unit_size);
        len_free = ulong (p.len_free + 2 ^ 64 - p.unit_size);
      },
      p.free + header,
    )

-- The pool, and the pointer that goes to `free` because it lies outside the block.
pub mpool_put : Pool → ℕ → Pool × Option ℕ
mpool_put p ptr =
    if ltb p.block ptr && ltb ptr (p.block + p.block_size)
    then (let unit = ptr - header in
        (
          record p {
            alloc = if p.links.prev unit == 0 then p.links.next unit else p.alloc;
            free = unit;
            links = push_front (unlink p.links unit) unit p.free;
            len_free = ulong (p.len_free + p.unit_size);
            len_alloc = ulong (p.len_alloc + 2 ^ 64 - p.unit_size);
          },
          none,
        ))
    else (p, some ptr)
