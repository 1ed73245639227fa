-- ===== src/Protocol/Chains.antt =====
-- What the success of a chain of checks (`Result` of include/p2pgpu/protocol/error.hpp) says of its links.
use p2p_gpu.Base.{◌≡◌, refl, Bool, true, false, if◌then◌else◌}
use p2p_gpu.Protocol.Errors.{Error, Result, ok, err, Status, ◌>>◌, ◌>>=◌, fail_if}

pub fail_if-ok : (test : Bool) (e : Error) → fail_if test e ≡ ok tt → test ≡ false
fail_if-ok true e h = cc
fail_if-ok false e h = refl

pub >>-ok :
    {B : Type 0} (s : Status) (rest : Result B) (b : B)
    → (s >> rest) ≡ ok b
    → (s ≡ ok tt) × (rest ≡ ok b)
>>-ok (ok tt) rest b h = (refl, h)
>>-ok (err e) rest b h = cc

pub >>=-ok :
    {A B : Type 0} (r : Result A) (next : A → Result B) (b : B)
    → (r >>= next) ≡ ok b
    → (a : A) × (r ≡ ok a) × (next a ≡ ok b)
>>=-ok (ok a) next b h = (a, refl, h)
>>=-ok (err e) next b h = cc

-- Of two outcomes, success is the one of the branch that was taken.
pub if-ok :
    {A : Type 0} (test : Bool) (e : Error) (a b : A)
    → (if test then err e else ok a) ≡ ok b
    → (test ≡ false) × (a ≡ b)
if-ok true e a b h = cc
if-ok false e a b h = (refl, cc)
