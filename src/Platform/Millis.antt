-- ===== src/Platform/Millis.antt =====
-- A concrete platform: numbers are whole thousandths, angles are small (sin x = x, cos x = 1).
use firt_version_ws.Prelude.{
  ℕ, zero, suc, ◌+◌, ◌*◌, ◌/◌, ◌^◌, leb, if◌then◌else◌, ℤ, pos, pos_part, neg_part, sub_ℕ, ◌+ℤ◌,
  ◌-ℤ◌, ltb_ℤ, leb_ℤ,
}
use firt_version_ws.Platform.Defs.{Platform, Quaternion}

abbrev pub Millis : Type 0
Millis = ℤ

abbrev pub root : ℕ → ℕ → ℕ
root zero n = 0
root (suc f) n = let r = 2 * root f (n / 4) in if leb ((r + 1) * (r + 1)) n then r + 1 else r

abbrev pub magnitude : ℤ → ℕ
magnitude a = pos_part a + neg_part a

abbrev pub negate : ℤ → ℤ
negate a = sub_ℕ (neg_part a) (pos_part a)

abbrev pub times : ℤ → ℤ → ℤ
times a b =
    sub_ℕ ((pos_part a * pos_part b + neg_part a * neg_part b) / 1000)
      ((pos_part a * neg_part b + neg_part a * pos_part b) / 1000)

abbrev pub quotient : ℤ → ℤ → ℤ
quotient a b =
    let p = pos_part a * 1000 / magnitude b in
    let n = neg_part a * 1000 / magnitude b in if leb (neg_part b) 0 then sub_ℕ p n else sub_ℕ n p

instance abbrev pub millis : Platform ℤ
millis = record {
  dec = λ n k. pos (n * 1000 / 10 ^ k);
  pi = pos 3142;
  add = ◌+ℤ◌;
  sub = ◌-ℤ◌;
  mul = times;
  div = quotient;
  neg = negate;
  abs = λ a. pos (magnitude a);
  sqrt = λ a. pos (root 32 (pos_part a * 1000));
  sin = λ a. a;
  cos = λ a. pos 1000;
  lt = ltb_ℤ;
  le = leb_ℤ;
  to_float = λ a. a;
  seconds = λ a b. sub_ℕ (a / 1000000) (b / 1000000);
  set_rpy = λ r p y. record { qx = r; qy = p; qz = quotient y (pos 2000); qw = pos 1000 };
  get_rpy = λ (q : Quaternion ℤ). record { roll = q.qx; pitch = q.qy; yaw = times q.qz (pos 2000) };
}
