-- ===== src/Net.antt =====
-- What the modules of crust/src/net share: I/O errors, the codec of messages, socket errors.
use crust_futures.Base.{ℕ, ◌≡◌, List, Result, ok, err, Memᴰ}

-- std::io::Error: the kind that the source makes itself, or a code of the system.
pub data IoError : Type 0 where
  timed_out : IoError
  os : ℕ → IoError

-- maidsafe_utilities::serialisation at a message type `M`, over frames of type `D`. The source
-- unwraps the result of `serialise_into`, so that a message always has a frame.
pub record Codec (M D : Type 0) : Type 1 where
  pub Error : Type 0
  pub serialise : M → D
  pub deserialise : D → Result Error M

-- `SocketError`, over the type of the codec's errors.
pub data SocketError (S : Type 0) : Type 0 where
  destroyed : SocketError S
  io : IoError → SocketError S
  deserialisation : S → SocketError S

-- `first_ok` of future_utils on the items of a stream, in whichever order they come: a success if there
-- is one, else errors among them.
pub record Race (E A : Type 0) : Type 0 where
  pub apply : List (Result E A) → Result (List E) A
  pub apply_ok : (rs : List (Result E A)) (a : A) → apply rs ≡ ok a → Memᴰ (ok a) rs
  pub apply_err :
      (rs : List (Result E A)) (es : List E) (a : A) → apply rs ≡ err es → Memᴰ (ok a) rs → ⊥
  pub apply_errs :
      (rs : List (Result E A)) (es : List E) (e : E)
      → apply rs ≡ err es
      → Memᴰ e es
      → Memᴰ (err e) rs
