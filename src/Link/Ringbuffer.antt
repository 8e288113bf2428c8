-- ===== src/Link/Ringbuffer.antt =====
-- What the receiving thread uses of the vendored `jnk0le::Ringbuffer<uint8_t, 16384>` of
-- ringbuffer.h: its contents as a list, oldest first, with what its three operations do to them.
use mcmqhost.Prelude.{ℕ, ◌+◌, ◌≤◌, ◌≡◌, List, [], ◌++◌, length, take, drop}

abbrev pub capacity : ℕ
capacity = 16384

pub record Ringbuffer (R : Type 0) : Type 0 where
  pub empty : R
  pub write_buff : List ℕ → R → R
  pub read_available : R → ℕ
  -- the bytes read, with what is left
  pub read_buff : ℕ → R → List ℕ × R
  pub contents : R → List ℕ
  pub contents-empty : contents empty ≡ []
  pub contents-write_buff :
      (xs : List ℕ) (r : R)
      → length (contents r) + length xs ≤ capacity
      → contents (write_buff xs r) ≡ contents r ++ xs
  pub read_available_lem : (r : R) → read_available r ≡ length (contents r)
  pub read_buff_bytes :
      (n : ℕ) (r : R) → n ≤ length (contents r) → (read_buff n r).0 ≡ take n (contents r)
  pub read_buff_left :
      (n : ℕ) (r : R) → n ≤ length (contents r) → contents (read_buff n r).1 ≡ drop n (contents r)
