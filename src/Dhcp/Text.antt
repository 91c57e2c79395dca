-- ===== src/Dhcp/Text.antt =====
-- dhcp.c, `IPToString` and `StringToIp`. A text is the memory from its first character on, with the
-- codes of its characters; `none` is a read behind the memory. `sprintf` is a parameter.
use daher_repo.Prelude.{
  ℕ, zero, suc, ◌+◌, ◌-◌, ◌*◌, ◌/◌, ◌%◌, ◌^◌, ◌≤◌, ◌<◌, ◌≡◌, ◌∙◌, refl, ap, true, false, ◌||◌, ◌==◌,
  Option, none, some, if◌then◌else◌, ◌>>=◌, arith, List, [], ◌∷◌, ◌++◌, map, length, length-append,
  length-map, All,
}

-- the inner loop of `StringToIp`: `byte_num`, and where it stops, at a '.' or at the end
unfoldable pub read_byte : List ℕ → ℕ → Option (ℕ × List ℕ)
read_byte [] byte_num = none
read_byte (c ∷ ip) byte_num =
    let rest = read_byte ip ((byte_num * 10 + (c + 2 ^ 32 - 48)) % 2 ^ 32) in
    if (c == 46) || (c == 0) then some (byte_num, c ∷ ip) else rest

-- `if (*ip != '\0') ++ip`
unfoldable pub step_over : List ℕ → Option (List ℕ)
step_over [] = none
step_over (c ∷ ip) = some (if c == 0 then c ∷ ip else ip)

-- the outer loop, on fuel
unfoldable pub read_bytes : ℕ → List ℕ → ℕ → Option ℕ
unfolding step_over
read_bytes zero ip ip_num = none
read_bytes (suc fuel) [] ip_num = none
read_bytes (suc fuel) (c ∷ ip) ip_num =
    if c == 0
    then some ip_num
    else (read_byte (c ∷ ip) 0 >>= λ p.
        (step_over p.1 >>= λ next. read_bytes fuel next ((ip_num * 2 ^ 8 % 2 ^ 32 + p.0) % 2 ^ 32)))

-- Each round passes at least one character.
unfoldable pub string_to_ip : List ℕ → Option ℕ
string_to_ip ip = read_bytes (length ip) ip 0

unfoldable pub ip_to_string : (ℕ → ℕ → ℕ → ℕ → List ℕ) → ℕ → List ℕ
ip_to_string sprintf ip =
    sprintf (ip / 2 ^ 24 % 256) (ip / 2 ^ 16 % 256) (ip / 2 ^ 8 % 256) (ip % 256)

-- the number that digits stand for, behind the number `b`
abbrev pub decimal : List ℕ → ℕ → ℕ
decimal [] b = b
decimal (d ∷ ds) b = decimal ds (b * 10 + d)

pub record IsDecimal (ds : List ℕ) (b : ℕ) : Type 0 where
  pub digits : All (λ d. d < 10) ds
  pub some_digit : 0 < length ds
  pub value : decimal ds 0 ≡ b

-- the characters of digits
abbrev pub chars : List ℕ → List ℕ
chars ds = map (λ d. 48 + d) ds

-- `sprintf(str_ip, "%u.%u.%u.%u", ...)` writes the four numbers in decimal digits, with dots between
-- and the terminator behind them.
unfoldable pub Prints : (ℕ → ℕ → ℕ → ℕ → List ℕ) → Type 0
Prints sprintf =
    (a b c d : ℕ)
    → a < 256
    → b < 256
    → c < 256
    → d < 256
    → (as_a : List ℕ) × (as_b : List ℕ) × (as_c : List ℕ) × (as_d : List ℕ) × IsDecimal as_a a
      × IsDecimal as_b b
      × IsDecimal as_c c
      × IsDecimal as_d d
      × (sprintf a b c d
          ≡ chars as_a
            ++ (46 ∷ (chars as_b ++ (46 ∷ (chars as_c ++ (46 ∷ (chars as_d ++ (0 ∷ []))))))))

decimal-grows : (ds : List ℕ) (b : ℕ) → b ≤ decimal ds b
decimal-grows [] b = omega arith
decimal-grows (d ∷ ds) b = omega (arith, decimal-grows ds (b * 10 + d))

read_byte-chars :
    (ds : List ℕ) (b e : ℕ) (rest : List ℕ)
    → All (λ d. d < 10) ds
    → decimal ds b < 2 ^ 32
    → ((e == 46) || (e == 0)) ≡ true
    → read_byte (chars ds ++ (e ∷ rest)) b ≡ some (decimal ds b, e ∷ rest)
unfolding read_byte
read_byte-chars [] b e rest a small stop = rw stop refl
read_byte-chars (d ∷ ds) b e rest a small stop =
    rw (digit d a.0, step b d a.0 (omega (arith, small, decimal-grows ds (b * 10 + d))))
      (read_byte-chars ds (b * 10 + d) e rest a.1 small stop)
  where
    digit : (d : ℕ) → d < 10 → ((48 + d == 46) || (48 + d == 0)) ≡ false
    digit d h = ground arith

    step :
        (b d : ℕ)
        → d < 10
        → b * 10 + d < 2 ^ 32
        → (b * 10 + (48 + d + 2 ^ 32 - 48)) % 2 ^ 32 ≡ b * 10 + d
    step b d h l = omega (arith, h, l)

-- One round: a number is read and put behind the bytes before it.
round_dot :
    (fuel : ℕ) (ds : List ℕ) (b n : ℕ) (rest : List ℕ)
    → IsDecimal ds b
    → b < 256
    → n < 2 ^ 24
    → read_bytes (suc fuel) (chars ds ++ (46 ∷ rest)) n ≡ read_bytes fuel rest (n * 256 + b)
unfolding read_bytes step_over
round_dot fuel [] b n rest v h l = absurd (omega (arith, v.some_digit))
round_dot fuel (d ∷ ds) b n rest v h l =
    rw
      (
        digit d (v.digits).0,
        read_byte-chars (d ∷ ds) 0 46 rest v.digits (omega (arith, v.value, h)) refl,
        v.value,
        put n b h l,
      )
      refl
  where
    digit : (d : ℕ) → d < 10 → (48 + d == 0) ≡ false
    digit d h = ground arith

    put : (n b : ℕ) → b < 256 → n < 2 ^ 24 → (n * 2 ^ 8 % 2 ^ 32 + b) % 2 ^ 32 ≡ n * 256 + b
    put n b h l = omega (arith, h, l)

round_end :
    (fuel : ℕ) (ds : List ℕ) (b n : ℕ)
    → IsDecimal ds b
    → b < 256
    → n < 2 ^ 24
    → read_bytes (suc (suc fuel)) (chars ds ++ (0 ∷ [])) n ≡ some (n * 256 + b)
unfolding read_bytes step_over
round_end fuel [] b n v h l = absurd (omega (arith, v.some_digit))
round_end fuel (d ∷ ds) b n v h l =
    rw
      (
        digit d (v.digits).0,
        read_byte-chars (d ∷ ds) 0 0 [] v.digits (omega (arith, v.value, h)) refl,
        v.value,
        put n b h l,
      )
      refl
  where
    digit : (d : ℕ) → d < 10 → (48 + d == 0) ≡ false
    digit d h = ground arith

    put : (n b : ℕ) → b < 256 → n < 2 ^ 24 → (n * 2 ^ 8 % 2 ^ 32 + b) % 2 ^ 32 ≡ n * 256 + b
    put n b h l = omega (arith, h, l)

-- the text of four bytes
abbrev text : List ℕ → List ℕ → List ℕ → List ℕ → List ℕ
text as_a as_b as_c as_d =
    chars as_a ++ (46 ∷ (chars as_b ++ (46 ∷ (chars as_c ++ (46 ∷ (chars as_d ++ (0 ∷ [])))))))

read_bytes-text :
    (fuel a b c d : ℕ) (as_a as_b as_c as_d : List ℕ)
    → IsDecimal as_a a
    → IsDecimal as_b b
    → IsDecimal as_c c
    → IsDecimal as_d d
    → a < 256
    → b < 256
    → c < 256
    → d < 256
    → read_bytes (suc (suc (suc (suc (suc fuel))))) (text as_a as_b as_c as_d) 0
      ≡ some (((a * 256 + b) * 256 + c) * 256 + d)
read_bytes-text fuel a b c d as_a as_b as_c as_d va vb vc vd ha hb hc hd =
    round_dot (suc (suc (suc (suc fuel)))) as_a a 0 _ va ha (omega arith)
    ∙ ap
        (λ n.
          read_bytes (suc (suc (suc (suc fuel))))
            (chars as_b ++ (46 ∷ (chars as_c ++ (46 ∷ (chars as_d ++ (0 ∷ [])))))) n)
        (plain a)
    ∙ round_dot (suc (suc (suc fuel))) as_b b a _ vb hb (omega (arith, ha))
    ∙ round_dot (suc (suc fuel)) as_c c (a * 256 + b) _ vc hc (omega (arith, ha, hb))
    ∙ round_end fuel as_d d ((a * 256 + b) * 256 + c) vd hd (omega (arith, ha, hb, hc))
  where
    plain : (a : ℕ) → 0 * 256 + a ≡ a
    plain a = omega arith

length-text :
    (as_a as_b as_c as_d : List ℕ)
    → 0 < length as_a
    → (fuel : ℕ) × (length (text as_a as_b as_c as_d) ≡ suc (suc (suc (suc (suc fuel)))))
length-text as_a as_b as_c as_d h =
    let la =
      length-append (chars as_a)
        (46 ∷ (chars as_b ++ (46 ∷ (chars as_c ++ (46 ∷ (chars as_d ++ (0 ∷ []))))))) in
    let lb = length-append (chars as_b) (46 ∷ (chars as_c ++ (46 ∷ (chars as_d ++ (0 ∷ []))))) in
    let lc = length-append (chars as_c) (46 ∷ (chars as_d ++ (0 ∷ []))) in
    let ld = length-append (chars as_d) (0 ∷ []) in
    let ma = length-map as_a (λ d. 48 + d) in
    (length (text as_a as_b as_c as_d) - 5, omega (arith, la, lb, lc, ld, ma, h))

-- Where `sprintf` prints bytes in decimal, `StringToIp` reads back every address below 2 ^ 32 that
-- `IPToString` wrote.
pub string_to_ip-ip_to_string :
    (sprintf : ℕ → ℕ → ℕ → ℕ → List ℕ) (ip : ℕ)
    → Prints sprintf
    → ip < 2 ^ 32
    → string_to_ip (ip_to_string sprintf ip) ≡ some ip
unfolding string_to_ip ip_to_string Prints
string_to_ip-ip_to_string sprintf ip prints small =
    let a = ip / 2 ^ 24 % 256 in
    let b = ip / 2 ^ 16 % 256 in
    let c = ip / 2 ^ 8 % 256 in
    let d = ip % 256 in
    let (as_a, as_b, as_c, as_d, va, vb, vc, vd, printed) =
      prints a b c d (omega arith) (omega arith) (omega arith) (omega arith) in
    let (fuel, long) = length-text as_a as_b as_c as_d va.some_digit in
    ap (λ s. read_bytes (length s) s 0) printed
    ∙ ap (λ n. read_bytes n (text as_a as_b as_c as_d) 0) long
    ∙ read_bytes-text fuel a b c d as_a as_b as_c as_d va vb vc vd (omega arith) (omega arith)
        (omega arith) (omega arith)
    ∙ ap some (bytes ip small)
  where
    bytes :
        (ip : ℕ)
        → ip < 2 ^ 32
        → ((ip / 2 ^ 24 % 256 * 256 + ip / 2 ^ 16 % 256) * 256 + ip / 2 ^ 8 % 256) * 256 + ip % 256
          ≡ ip
    bytes ip h = omega (arith, h)
