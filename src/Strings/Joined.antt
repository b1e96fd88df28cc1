-- ===== src/Strings/Joined.antt =====
-- `strcat` against lists of bytes.
use chestnut.Base.{
  ℕ, zero, suc, ◌+◌, ◌≤◌, ◌<◌, ◌≡◌, ◌⊎◌, sym, subst, ap, ◌∙◌, inl, arith, false, some, List, [],
  ◌∷◌, ◌++◌, ◌==◌, length,
}
use chestnut.Bytes.{Memory}
use chestnut.Strings.{seek_end, strcat}
use chestnut.Strings.Laws.{IsString, strcpy-IsString}

seek_end-IsString :
    (cs : List ℕ) (fuel s : ℕ) (m : Memory)
    → IsString m s cs
    → length cs < fuel
    → seek_end fuel s m ≡ some (s + length cs)
unfolding seek_end
seek_end-IsString cs zero s m is lt = absurd (omega arith)
seek_end-IsString [] (suc fuel) s m is lt = rw is (ap (λ (n : ℕ). some n) (omega arith))
seek_end-IsString (c ∷ cs) (suc fuel) s m (e, ne, is) lt =
    let other : (m s == 0) ≡ false = ground arith in
    rw other
      (seek_end-IsString cs fuel (s + 1) m is (omega arith) ∙ ap (λ (n : ℕ). some n) (omega arith))

IsString-append :
    (cs ds : List ℕ) (s : ℕ) (m m' : Memory)
    → IsString m s cs
    → ((a : ℕ) → s ≤ a → a < s + length cs → m' a ≡ m a)
    → IsString m' (s + length cs) ds
    → IsString m' s (cs ++ ds)
IsString-append [] ds s m m' is same js = let e : s + 0 ≡ s = omega arith in rw (sym e) js
IsString-append (c ∷ cs) ds s m m' (e, ne, is) same js =
    let f : s + suc (length cs) ≡ s + 1 + length cs = omega arith in
    (
      same s (omega arith) (omega arith) ∙ e,
      ne,
      IsString-append cs ds (s + 1) m m' is (λ a ge lt. same a (omega arith) (omega arith))
          (subst (λ p. IsString m' p ds) f js),
    )

-- `strcat` of a string to another one, which its bytes and the room behind it do not reach, ends with
-- more fuel than each has bytes; it leaves the two strings joined at `dst`, and changes nothing
-- before the end of the first and behind the new end.
pub strcat-IsString :
    (cs ds : List ℕ) (fuel dst src : ℕ) (m : Memory)
    → IsString m dst cs
    → IsString m src ds
    → length cs < fuel
    → length ds < fuel
    → (dst + length cs + length ds < src) ⊎ (src + length ds < dst + length cs)
    → (m' : Memory) × ((strcat fuel dst src m ≡ some m')
        × IsString m' dst (cs ++ ds)
        × ((a : ℕ) → (a < dst + length cs) ⊎ (dst + length cs + length ds < a) → m' a ≡ m a))
unfolding strcat
strcat-IsString cs ds fuel dst src m is js lt lt' apart =
    let place = seek_end-IsString cs fuel dst m is lt in
    let (m', e, there, outside) = strcpy-IsString ds fuel (dst + length cs) src m js lt' apart in
    (
      m',
      (
        rw (place, strcat) e,
        IsString-append cs ds dst m m' is (λ a ge below. outside a (inl below)) there,
        outside,
      ),
    )
