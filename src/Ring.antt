-- ===== src/Ring.antt =====
-- The ring buffers of kernel/ipc.c: `head` and `tail` are uint32_t counters that run freely, and an
-- access takes them modulo the number of slots.
pub mod Contents
use blockos.Prelude.{ℕ, ◌+◌, ◌-◌, ◌%◌, ◌^◌, List, get_or, set}

pub record Ring {ℓ} (A : Type ℓ) : Type ℓ where
  pub slots : List A
  pub head : ℕ
  pub tail : ℕ
  pub count : ℕ

-- `x + 1` on a uint32_t
abbrev pub inc32 : ℕ → ℕ
inc32 x = (x + 1) % 2 ^ 32

module _ {ℓ} {A : Type ℓ} (cap : ℕ) where
  -- slots[tail % cap] = x; tail++; count++;
  unfoldable pub put : Ring A → A → Ring A
  put r x = record r {
    slots = set r.slots (r.tail % cap) x;
    tail = inc32 r.tail;
    count = inc32 r.count;
  }

  -- slots[head % cap]
  unfoldable pub front : A → Ring A → A
  front d r = get_or r.slots (r.head % cap) d

-- head++; count--; run only where count is not 0
unfoldable pub drop_front {ℓ} : {A : Type ℓ} → Ring A → Ring A
drop_front r = record r { head = inc32 r.head; count = r.count - 1 }
