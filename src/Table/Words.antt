-- ===== src/Table/Words.antt =====
-- The two words of a node: the mddnode functions of src/SylvanWrapper.h. The 32 bits of the value
-- start at byte 6, on a machine that stores the low byte first: the low half of the value is the
-- high 16 bits of the first word, and its high half the low 16 bits of the second.
use mc_sog.Net.Observable.{mark}
use mc_sog.Prelude.{
  Bool, arith, false, if◌then◌else◌, refl, true, ℕ, ◌%◌, ◌*◌, ◌+◌, ◌/◌, ◌<◌, ◌^◌, ◌≡◌,
}

-- `*(uint32_t *) ((uint8_t *) n + 6) = value`
unfoldable pub write_value : ℕ × ℕ → ℕ → ℕ × ℕ
write_value (a, b) value =
    (a % 2 ^ 48 + value % 2 ^ 16 * 2 ^ 48, b / 2 ^ 16 * 2 ^ 16 + value / 2 ^ 16 % 2 ^ 16)

unfoldable pub mddnode_make : (value right down : ℕ) → ℕ × ℕ
unfolding write_value
mddnode_make value right down = write_value (right * 2 % 2 ^ 64, down * 2 ^ 17 % 2 ^ 64) value

-- `((down << 1) | 1) << 16`: the low bit of `down << 1` is 0.
unfoldable pub mddnode_makecopy : (right down : ℕ) → ℕ × ℕ
mddnode_makecopy right down = (right * 2 % 2 ^ 64, (down * 2 % 2 ^ 64 + 1) * 2 ^ 16 % 2 ^ 64)

unfoldable pub word_right : ℕ × ℕ → ℕ
word_right (a, b) = a % 2 ^ 48 / 2

unfoldable pub word_value : ℕ × ℕ → ℕ
word_value (a, b) = a / 2 ^ 48 % 2 ^ 16 + b % 2 ^ 16 * 2 ^ 16

unfoldable pub word_down : ℕ × ℕ → ℕ
word_down (a, b) = b / 2 ^ 17

unfoldable pub mddnode_getcopy : ℕ × ℕ → ℕ
mddnode_getcopy (a, b) = b / 2 ^ 16 % 2

unfoldable pub mddnode_getmark : ℕ × ℕ → ℕ
mddnode_getmark (a, b) = a % 2

-- `(n->a & 0xfffffffffffffffe) | (mark ? 1 : 0)`
unfoldable pub mddnode_setmark : ℕ × ℕ → Bool → ℕ × ℕ
mddnode_setmark (a, b) mark = (a / 2 * 2 + (if mark then 1 else 0), b)

-- What the getters read.
pub record IsNode (n : ℕ × ℕ) (value right down copy mark : ℕ) : Type 0 where
  pub value_read : word_value n ≡ value
  pub right_read : word_right n ≡ right
  pub down_read : word_down n ≡ down
  pub copy_read : mddnode_getcopy n ≡ copy
  pub mark_read : mddnode_getmark n ≡ mark

-- The getters read from a made node what it was made of, as long as the value has 32 bits and the
-- indices 47; it is no copy node and not marked.
pub mddnode_make-IsNode :
    (value right down : ℕ)
    → value < 2 ^ 32
    → right < 2 ^ 47
    → down < 2 ^ 47
    → IsNode (mddnode_make value right down) value right down 0 0
unfolding mddnode_make word_right word_value word_down mddnode_getcopy mddnode_getmark
mddnode_make-IsNode value right down hv hr hd = record {
  value_read = omega arith;
  right_read = omega arith;
  down_read = omega arith;
  copy_read = omega arith;
  mark_read = omega arith;
}

pub mddnode_makecopy-IsNode :
    (right down : ℕ)
    → right < 2 ^ 47
    → down < 2 ^ 47
    → IsNode (mddnode_makecopy right down) 0 right down 1 0
unfolding mddnode_makecopy word_right word_value word_down mddnode_getcopy mddnode_getmark
mddnode_makecopy-IsNode right down hr hd = record {
  value_read = omega arith;
  right_read = omega arith;
  down_read = omega arith;
  copy_read = omega arith;
  mark_read = omega arith;
}

-- Marking changes the mark alone.
pub mddnode_setmark-IsNode :
    (n : ℕ × ℕ) (mark : Bool)
    → IsNode
        (mddnode_setmark n mark)
        (word_value n)
        (word_right n)
        (word_down n)
        (mddnode_getcopy n)
        (if mark then 1 else 0)
unfolding mddnode_setmark word_right word_value word_down mddnode_getcopy mddnode_getmark
mddnode_setmark-IsNode (a, b) true = record {
  value_read = omega arith;
  right_read = omega arith;
  down_read = refl;
  copy_read = refl;
  mark_read = omega arith;
}
mddnode_setmark-IsNode (a, b) false = record {
  value_read = omega arith;
  right_read = omega arith;
  down_read = refl;
  copy_read = refl;
  mark_read = omega arith;
}
