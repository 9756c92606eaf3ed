-- ===== src/Resp/Value.antt =====
-- The Ruby objects that the protocol knows, and the message of each.
use uringmachine.Base.{ℕ, Bool, List, ℤ}

-- A string object: one of its own, or the buffer that the whole of a `resp_read` shares.
pub data Str : Type 0 where
  bytes : List ℕ → Str
  out_buffer : Str

-- An integer is any Integer, T_FIXNUM or T_BIGNUM. A float is its 64 bits. `other` is any object that cannot be encoded.
mutual
  pub data Value : Type 0 where
    nil : Value
    bool : Bool → Value
    integer : ℤ → Value
    float : ℕ → Value
    string : Str → Value
    error : Str → Value
    array : Items → Value
    hash : Pairs → Value
    other : Value

  pub data Items : Type 0 where
    no_items : Items
    item : Value → Items → Items

  pub data Pairs : Type 0 where
    no_pairs : Pairs
    pair : (key value : Value) → Pairs → Pairs

-- What a string object holds, `shared` being the contents of the shared buffer.
abbrev pub contents : (shared : List ℕ) → Str → List ℕ
contents shared (bytes xs) = xs
contents shared out_buffer = shared

-- The conversions of the C library between a double and its text: `strtod`, and `sprintf` of `%lg`.
pub record Floats : Type 0 where
  pub strtod : List ℕ → ℕ
  pub lg : ℕ → List ℕ
