-- ===== src/Tools/Header.antt =====
-- The header that devctrl.c writes, as devctrl.cpp reads it.
use wfpdriver.Shared.{
  ℕ, ◌+◌, ◌/◌, ◌%◌, ◌^◌, ◌<◌, ◌≡◌, refl, ap, sym, ◌∙◌, List, [], ◌∷◌, ◌++◌, Memory, le32, read32,
  read_bytes, read_bytes-append, length, region, arith,
}
use wfpdriver.State.{Packet}
use wfpdriver.Devctrl.Frame.{frame}

-- A prefix read is a prefix of the longer read.
pub append_cancel :
    (xs ys zs ws : List ℕ) → length xs ≡ length zs → xs ++ ys ≡ zs ++ ws → (xs ≡ zs) × (ys ≡ ws)
append_cancel [] ys [] ws l e = (refl, e)
append_cancel [] ys (z ∷ zs) ws l e = absurd (omega arith)
append_cancel (x ∷ xs) ys [] ws l e = absurd (omega arith)
append_cancel (x ∷ xs) ys (z ∷ zs) ws l e = ground (arith, append_cancel xs ys zs ws)

read_four : (m : Memory) (a : ℕ) → read_bytes m a 4 ≡ m a ∷ m (a + 1) ∷ m (a + 2) ∷ m (a + 3) ∷ []
unfolding read_bytes
read_four m a =
    let p : a + 1 + 1 ≡ a + 2 = omega arith in let q : a + 2 + 1 ≡ a + 3 = omega arith in rw (p, q)

-- The bytes at an address are those of a word.
pub record HoldsWord (m : Memory) (a x : ℕ) : Type 0 where
  pub byte0 : m a ≡ x % 256
  pub byte1 : m (a + 1) ≡ x / 256 % 256
  pub byte2 : m (a + 2) ≡ x / 65536 % 256
  pub byte3 : m (a + 3) ≡ x / 16777216 % 256

le32-HoldsWord : (m : Memory) (a x : ℕ) → read_bytes m a 4 ≡ le32 x → HoldsWord m a x
unfolding le32
le32-HoldsWord m a x e =
    let f = sym (read_four m a) ∙ e in record { byte0 = cc; byte1 = cc; byte2 = cc; byte3 = cc }

pub read32-HoldsWord : (m : Memory) (a x : ℕ) → x < 2 ^ 32 → HoldsWord m a x → read32 m a ≡ x
unfolding read32
read32-HoldsWord m a x h w = omega arith

-- The three words of a record's header, and its bytes behind them.
pub record HoldsFrame (m : Memory) (a code id : ℕ) (p : Packet) : Type 0 where
  pub code_word : HoldsWord m a code
  pub id_word : HoldsWord m (a + 4) id
  pub size_word : HoldsWord m (a + 8) p.data_length
  pub payload : read_bytes m (a + 12) p.data_length ≡ region p.data_buffer

read_word :
    (m : Memory) (a b k n : ℕ)
    → k ≡ 4 + n
    → a + 4 ≡ b
    → read_bytes m a k ≡ read_bytes m a 4 ++ read_bytes m b n
read_word m a b k n e f = rw (e, ← f) (read_bytes-append m a 4 n)

read_words :
    (m : Memory) (a n : ℕ)
    → read_bytes m a (12 + n)
      ≡ read_bytes m a 4
        ++ (read_bytes m (a + 4) 4 ++ (read_bytes m (a + 8) 4 ++ read_bytes m (a + 12) n))
read_words m a n =
    read_word m a (a + 4) (12 + n) (8 + n) (omega arith) (omega arith)
    ∙ ap (◌++◌ (read_bytes m a 4)) (
        read_word m (a + 4) (a + 8) (8 + n) (4 + n) (omega arith) (omega arith)
        ∙ ap (◌++◌ (read_bytes m (a + 4) 4))
            (read_word m (a + 8) (a + 12) (4 + n) n (omega arith) (omega arith)))

pub frame-HoldsFrame :
    (m : Memory) (a code id : ℕ) (p : Packet)
    → read_bytes m a (12 + p.data_length) ≡ frame code id p
    → HoldsFrame m a code id p
unfolding le32 read_bytes
frame-HoldsFrame m a code id p e = record {
  code_word = le32-HoldsWord m a code first.0;
  id_word = le32-HoldsWord m (a + 4) id second.0;
  size_word = le32-HoldsWord m (a + 8) p.data_length third.0;
  payload = third.1;
}
  where
    n : ℕ
    n = p.data_length

    first :
        (read_bytes m a 4 ≡ le32 code)
        × (read_bytes m (a + 4) 4 ++ (read_bytes m (a + 8) 4 ++ read_bytes m (a + 12) n)
            ≡ le32 id ++ (le32 n ++ region p.data_buffer))
    first = append_cancel (read_bytes m a 4) _ (le32 code) _ refl (sym (read_words m a n) ∙ e)

    second :
        (read_bytes m (a + 4) 4 ≡ le32 id)
        × (read_bytes m (a + 8) 4 ++ read_bytes m (a + 12) n ≡ le32 n ++ region p.data_buffer)
    second = append_cancel (read_bytes m (a + 4) 4) _ (le32 id) _ refl first.1

    third : (read_bytes m (a + 8) 4 ≡ le32 n) × (read_bytes m (a + 12) n ≡ region p.data_buffer)
    third = append_cancel (read_bytes m (a + 8) 4) _ (le32 n) _ refl second.1
