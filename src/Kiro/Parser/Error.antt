-- ===== src/Kiro/Parser/Error.antt =====
-- src/kiro/parser/error.rs: the errors of the parser and their texts. A parser function returns a
-- `ParseResult`, which has one more outcome than Rust's: a `fault`, where the Rust program would
-- panic or not return.
use kiro_rs_tool.Prelude.{ℕ, String, ◌≡◌, refl, ap, subst, Bool, true, false, if◌then◌else◌}
use kiro_rs_tool.Prelude.Text.{◌<>◌, decimal, hex8}

-- `Io` and `PayloadDeserialize` carry an error of another library: here, the text that it prints.
pub data ParseError : Type 0 where
  incomplete : ℕ → ℕ → ParseError
  prelude_crc_mismatch : ℕ → ℕ → ParseError
  message_crc_mismatch : ℕ → ℕ → ParseError
  invalid_header_type : ℕ → ParseError
  header_parse_failed : String → ParseError
  message_too_large : ℕ → ℕ → ParseError
  message_too_small : ℕ → ℕ → ParseError
  invalid_message_type : String → ParseError
  payload_deserialize : String → ParseError
  io : String → ParseError
  too_many_errors : ℕ → String → ParseError
  buffer_overflow : ℕ → ℕ → ParseError

unfoldable pub display : ParseError → String
display (incomplete needed available) =
    "数据不足: 需要 " <> decimal needed <> " 字节, 当前 " <> decimal available <> " 字节"
display (prelude_crc_mismatch expected actual) =
    "Prelude CRC 校验失败: 期望 0x" <> hex8 expected <> ", 实际 0x" <> hex8 actual
display (message_crc_mismatch expected actual) =
    "Message CRC 校验失败: 期望 0x" <> hex8 expected <> ", 实际 0x" <> hex8 actual
display (invalid_header_type t) = "无效的头部值类型: " <> decimal t
display (header_parse_failed msg) = "头部解析失败: " <> msg
display (message_too_large len max) = "消息长度超限: " <> decimal len <> " 字节 (最大 " <> decimal max <> ")"
display (message_too_small len min) = "消息长度过小: " <> decimal len <> " 字节 (最小 " <> decimal min <> ")"
display (invalid_message_type t) = "无效的消息类型: " <> t
display (payload_deserialize e) = "Payload 反序列化失败: " <> e
display (io e) = "IO 错误: " <> e
display (too_many_errors count last_error) =
    "连续错误过多 (" <> decimal count <> " 次)，解码器已停止: " <> last_error
display (buffer_overflow size max) = "缓冲区溢出: " <> decimal size <> " 字节 (最大 " <> decimal max <> ")"

-- Where the Rust program would panic (an index or a range out of bounds), or a loop has used up
-- the fuel that the model gives it.
pub data Fault : Type 0 where
  out_of_bounds out_of_fuel : Fault

pub data ParseResult {ℓ} (A : Type ℓ) : Type ℓ where
  ok : A → ParseResult A
  err : ParseError → ParseResult A
  fault : Fault → ParseResult A

-- The operator `?`.
infixl 5 ◌>>=◌ ◌>>◌
abbrev pub ◌>>=◌ {ℓ κ} :
    {A : Type ℓ} {B : Type κ} → ParseResult A → (A → ParseResult B) → ParseResult B
ok a >>= f = f a
err e >>= f = err e
fault x >>= f = fault x

abbrev pub ◌>>◌ {ℓ} : {B : Type ℓ} → ParseResult (Unit {0}) → ParseResult B → ParseResult B
m >> k = m >>= λ _. k

-- An early `return Err(e)` where a test fails.
abbrev pub require : Bool → ParseError → ParseResult (Unit {0})
require true e = ok tt
require false e = err e

-- The call returns, with an error or with a value that meets the predicate.
abbrev pub Ensures {ℓ} : {A : Type ℓ} → (A → Type 0) → ParseResult A → Type 0
Ensures P (ok a) = P a
Ensures P (err e) = Unit
Ensures P (fault x) = ⊥

-- No fault: the call returns, with a value or an error.
abbrev pub Returns {ℓ} : {A : Type ℓ} → ParseResult A → Type 0
Returns r = Ensures (λ _. Unit) r

module _ {ℓ κ} {A : Type ℓ} {B : Type κ} where
  pub Ensures-bind :
      (P : A → Type 0) (Q : B → Type 0) (m : ParseResult A) (f : A → ParseResult B)
      → Ensures P m
      → ((a : A) → P a → Ensures Q (f a))
      → Ensures Q (m >>= f)
  Ensures-bind P Q (ok a) f r h = h a r
  Ensures-bind P Q (err e) f r h = tt
  Ensures-bind P Q (fault x) f r h = absurd r

  pub bind-eq-ok :
      (m : ParseResult A) (f : A → ParseResult B) {b : B}
      → (m >>= f) ≡ ok b
      → (a : A) × (m ≡ ok a) × (f a ≡ ok b)
  bind-eq-ok (ok a) f h = (a, refl, h)
  bind-eq-ok (err e) f h = cc
  bind-eq-ok (fault x) f h = cc

module _ {ℓ} {B : Type ℓ} where
  pub Ensures-require :
      (Q : B → Type 0) (b : Bool) (e : ParseError) (m : ParseResult B)
      → (b ≡ true → Ensures Q m)
      → Ensures Q (require b e >> m)
  Ensures-require Q true e m h = h refl
  Ensures-require Q false e m h = tt

  pub Ensures-if :
      (Q : B → Type 0) (b : Bool) (m n : ParseResult B)
      → (b ≡ true → Ensures Q m)
      → (b ≡ false → Ensures Q n)
      → Ensures Q (if b then m else n)
  Ensures-if Q true m n h k = h refl
  Ensures-if Q false m n h k = k refl

  pub Ensures-mono :
      (P Q : B → Type 0) (m : ParseResult B) → Ensures P m → ((b : B) → P b → Q b) → Ensures Q m
  Ensures-mono P Q (ok b) h k = k b h
  Ensures-mono P Q (err e) h k = tt
  Ensures-mono P Q (fault x) h k = absurd h

module _ {ℓ} {A : Type ℓ} where
  -- A predicate follows for the value that comes back.
  pub Ensures-ok : (P : A → Type 0) (r : ParseResult A) {a : A} → Ensures P r → r ≡ ok a → P a
  Ensures-ok P (ok b) h e = subst P (ok-injective e) h
    where
      value : ParseResult A → A
      value (ok a) = a
      value _ = b

      ok-injective : {a c : A} → ok a ≡ ok c → a ≡ c
      ok-injective e = ap value e
  Ensures-ok P (err x) h e = cc
  Ensures-ok P (fault x) h e = absurd h
