-- ===== src/Internal/Buffer.antt =====
-- A received message: a zeroed `gchar` buffer of fixed size into which bytes were read, passed on as
-- a C string. Server::incoming and Client::incomming both do this.
pub mod Laws
use nsvr.Prelude.{
  ℕ, Bool, true, false, ◌||◌, List, [], ◌∷◌, Bytes, length, take, ltb, ◌==◌, if◌then◌else◌,
}
use nsvr.Env.{undefined, unterminated_read}
use nsvr.Env.Monad.{M, pure, ◌>>=◌, ◌>>◌, call}

-- The bytes before the first zero.
pub until_zero : Bytes → Bytes
until_zero [] = []
until_zero (c ∷ s) = let rest = until_zero s in if c == 0 then [] else c ∷ rest

pub has_zero : Bytes → Bool
has_zero [] = false
has_zero (c ∷ s) = c == 0 || has_zero s

-- A buffer that was filled without a zero is read beyond its end.
unfoldable pub c_string : {A : Type 0} → ℕ → Bytes → M A Bytes
unfolding until_zero has_zero
c_string size bytes =
    let filled = take size bytes in
    if ltb (length filled) size || has_zero filled
    then pure (until_zero filled)
    else call (undefined unterminated_read) >> pure filled
