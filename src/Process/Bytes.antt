-- ===== src/Process/Bytes.antt =====
-- Bytes in the words of memory.
use seli_os.Process.{byte_at, put_byte}
use seli_os.Paging.User.Window.{put_self, put_other}
use seli_os.Prelude.{
  ℕ, zero, suc, ◌+◌, ◌*◌, ◌/◌, ◌%◌, ◌^◌, ◌<◌, ◌≡◌, ◌≢◌, sym, ap, ◌∙◌, inl, inr, arith, ◌==◌,
  Bool-cases, ==_iff,
}

-- A word with byte `r` replaced.
abbrev replaced : ℕ → ℕ → ℕ → ℕ
replaced word r v = word / (256 ^ r * 256) * (256 ^ r * 256) + v * 256 ^ r + word % 256 ^ r

replaced_self : (word r v : ℕ) → r < 4 → v < 256 → replaced word r v / 256 ^ r % 256 ≡ v
replaced_self word zero v h small = omega arith
replaced_self word (suc zero) v h small = omega arith
replaced_self word (suc (suc zero)) v h small = omega arith
replaced_self word (suc (suc (suc zero))) v h small = omega arith
replaced_self word (suc (suc (suc (suc r)))) v h small = absurd (omega arith)

replaced_other :
    (word r q v : ℕ)
    → r < 4
    → q < 4
    → r ≢ q
    → v < 256
    → replaced word r v / 256 ^ q % 256 ≡ word / 256 ^ q % 256
replaced_other word zero zero v h k ne small = absurd (omega arith)
replaced_other word zero (suc zero) v h k ne small = omega arith
replaced_other word zero (suc (suc zero)) v h k ne small = omega arith
replaced_other word zero (suc (suc (suc zero))) v h k ne small = omega arith
replaced_other word (suc zero) zero v h k ne small = omega arith
replaced_other word (suc zero) (suc zero) v h k ne small = absurd (omega arith)
replaced_other word (suc zero) (suc (suc zero)) v h k ne small = omega arith
replaced_other word (suc zero) (suc (suc (suc zero))) v h k ne small = omega arith
replaced_other word (suc (suc zero)) zero v h k ne small = omega arith
replaced_other word (suc (suc zero)) (suc zero) v h k ne small = omega arith
replaced_other word (suc (suc zero)) (suc (suc zero)) v h k ne small = absurd (omega arith)
replaced_other word (suc (suc zero)) (suc (suc (suc zero))) v h k ne small = omega arith
replaced_other word (suc (suc (suc zero))) zero v h k ne small = omega arith
replaced_other word (suc (suc (suc zero))) (suc zero) v h k ne small = omega arith
replaced_other word (suc (suc (suc zero))) (suc (suc zero)) v h k ne small = omega arith
replaced_other word (suc (suc (suc zero))) (suc (suc (suc zero))) v h k ne small =
    absurd (omega arith)
replaced_other word (suc (suc (suc (suc r)))) q v h k ne small = absurd (omega arith)
replaced_other word r (suc (suc (suc (suc q)))) v h k ne small = absurd (omega arith)

pub put_byte_self : (memory : ℕ → ℕ) (a v : ℕ) → v < 256 → byte_at (put_byte memory a v) a ≡ v
put_byte_self memory a v small =
    ap (λ word. word / 256 ^ (a % 4) % 256)
      (put_self memory (a / 4 * 4) (replaced (memory (a / 4 * 4)) (a % 4) v))
    ∙ replaced_self (memory (a / 4 * 4)) (a % 4) v (omega arith) small

-- Other words keep their value.
pub put_byte_word : (memory : ℕ → ℕ) (a v b : ℕ) → a / 4 * 4 ≢ b → put_byte memory a v b ≡ memory b
put_byte_word memory a v b ne =
    put_other memory (a / 4 * 4) b (replaced (memory (a / 4 * 4)) (a % 4) v) ne

pub put_byte_other :
    (memory : ℕ → ℕ) (a v b : ℕ)
    → v < 256
    → a ≢ b
    → byte_at (put_byte memory a v) b ≡ byte_at memory b
put_byte_other memory a v b small ne = elim (Bool-cases (a / 4 == b / 4)) [
  | inl same ↦
      let word = (==_iff (a / 4) (b / 4)).0 same in
      ap (λ k. put_byte memory a v (k * 4) / 256 ^ (b % 4) % 256) (sym word)
      ∙ ap (λ word. word / 256 ^ (b % 4) % 256)
          (put_self memory (a / 4 * 4) (replaced (memory (a / 4 * 4)) (a % 4) v))
      ∙ replaced_other (memory (a / 4 * 4)) (a % 4) (b % 4) v (omega arith) (omega arith)
          (λ e. ne (omega arith)) small
      ∙ ap (λ k. memory (k * 4) / 256 ^ (b % 4) % 256) word
  | inr other ↦
      let apart : a / 4 ≢ b / 4 = λ e. ground arith in
      ap (λ word. word / 256 ^ (b % 4) % 256)
        (put_byte_word memory a v (b / 4 * 4) (λ e. apart (omega arith)))
]
