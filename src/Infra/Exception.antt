-- ===== src/Infra/Exception.antt =====
-- src/infra/exception.c: the record of an error on its way up, one for each thread. `msg` is the
-- buffer of 4096 bytes as a stack of messages that grows down from its last byte.
pub mod Log
mod Tests
use dns_relay.Base.{
  ℕ, zero, suc, ◌+◌, ◌-◌, Bool, true, false, ◌&&◌, Option, none, some, List, [], ◌∷◌, length, take,
  get_or, ltb, leb, ◌==◌, if◌then◌else◌, update,
}

abbrev pub msg_end : ℕ
msg_end = 4095

pub record Context : Type 0 where
  pub msg : ℕ → ℕ
  pub err_flag : Bool
  pub stack_top : ℕ

unfoldable pub ex_try : Context → Context
ex_try c = record { msg = update c.msg msg_end 0; err_flag = true; stack_top = msg_end }

unfoldable pub ex_catch : Context → Bool
ex_catch c = c.err_flag && ltb c.stack_top msg_end

-- `memcpy` of a text to the index `i`.
unfoldable pub copy_to : (ℕ → ℕ) → ℕ → List ℕ → ℕ → ℕ
copy_to msg i text j = if leb i j && ltb j (i + length text) then get_or text (j - i) 0 else msg j

-- `ex_throw` of the formatted text, which `vsnprintf` cuts to 511 bytes; `none` is the write below
-- the start of the buffer.
unfoldable pub push_text : Context → List ℕ → Option Context
unfolding copy_to
push_text c text =
    let net_r = c.stack_top - length text in
    if length text == 0
    then some c
    else if ltb c.stack_top (length text)
    then some c
    else if net_r == 0
    then none
    else some
        (record c { msg = update (copy_to c.msg net_r text) (net_r - 1) 10; stack_top = net_r - 1 })

unfoldable pub ex_throw : Context → List ℕ → Option Context
ex_throw c text = push_text (if c.err_flag then c else ex_try c) (take 511 text)

-- The C string at an index; the fuel bounds its length.
unfoldable pub c_string : ℕ → (ℕ → ℕ) → ℕ → List ℕ
c_string zero msg i = []
c_string (suc fuel) msg i =
    let rest = c_string fuel msg (i + 1) in if msg i == 0 then [] else msg i ∷ rest

unfoldable pub ex_end : Context → Context × List ℕ
ex_end c =
    if c.err_flag then (record c { err_flag = false }, c_string 4096 c.msg c.stack_top) else (c, [])
