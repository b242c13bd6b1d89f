-- ===== src/CString.antt =====
-- kernel/src/lib/string.cpp: the memory and string functions.
--
-- Memory is a function from addresses to bytes, so that buffers may overlap; pointers are numbers
-- that do not wrap. `nullptr` results are `none`. A loop that runs up to a terminator takes fuel,
-- and `none` of its outer option means that the fuel ran out.
pub mod Copies
pub mod Compares
pub mod Scans
use epsilon_os.Base.{
  ℕ, zero, suc, ◌+◌, ◌-◌, ◌%◌, ◌^◌, Bool, true, false, ◌&&◌, ◌||◌, not, Option, none, some, ltb,
  ◌==◌, if◌then◌else◌, ℤ, pos, negsuc, sub_ℕ, to_u8,
}

abbrev pub Memory : Type 0
Memory = ℕ → ℕ

abbrev pub store : Memory → ℕ → ℕ → Memory
store m p v a = if p == a then v else m a

-- The loop of `memcpy`: `left` bytes from index `i` on.
unfoldable pub copy_up : ℕ → ℕ → ℕ → ℕ → Memory → Memory
copy_up zero i dest src m = m
copy_up (suc left) i dest src m = copy_up left (i + 1) dest src (store m (dest + i) (m (src + i)))

-- `for (i = n; i > 0; i--) pdest[i - 1] = psrc[i - 1]`.
unfoldable pub copy_down : ℕ → ℕ → ℕ → Memory → Memory
copy_down zero dest src m = m
copy_down (suc i) dest src m = copy_down i dest src (store m (dest + i) (m (src + i)))

unfoldable pub memcpy : ℕ → ℕ → ℕ → Memory → Memory
unfolding copy_up
memcpy dest src n m = copy_up n 0 dest src m

unfoldable pub fill : ℕ → ℕ → ℕ → ℕ → Memory → Memory
fill zero i s c m = m
fill (suc left) i s c m = fill left (i + 1) s c (store m (s + i) (to_u8 c))

unfoldable pub memset : ℕ → ℕ → ℕ → Memory → Memory
unfolding fill
memset s c n m = fill n 0 s c m

unfoldable pub memmove : ℕ → ℕ → ℕ → Memory → Memory
unfolding copy_up copy_down
memmove dest src n m =
    if ltb dest src
    then copy_up n 0 dest src m
    else if ltb src dest
    then copy_down n dest src m
    else m

unfoldable pub compare_from : ℕ → ℕ → ℕ → ℕ → Memory → ℤ
compare_from zero i s1 s2 m = pos 0
compare_from (suc left) i s1 s2 m =
    let rest : ℤ = compare_from left (i + 1) s1 s2 m in
    if not (m (s1 + i) == m (s2 + i))
    then (if ltb (m (s1 + i)) (m (s2 + i)) then negsuc 0 else pos 1)
    else rest

unfoldable pub memcmp : ℕ → ℕ → ℕ → Memory → ℤ
unfolding compare_from
memcmp s1 s2 n m = compare_from n 0 s1 s2 m

-- The address of the terminator, from `str` on.
unfoldable pub end_of : ℕ → ℕ → Memory → Option ℕ
end_of zero str m = none
end_of (suc fuel) str m =
    let rest : Option ℕ = end_of fuel (str + 1) m in if m str == 0 then some str else rest

unfoldable pub strlen : ℕ → ℕ → Memory → Option ℕ
unfolding end_of
strlen fuel s m = elim (end_of fuel s m) [ none ↦ none | some str ↦ some (str - s) ]

-- `strcmp` compares as `unsigned char`.
unfoldable pub strcmp : ℕ → ℕ → ℕ → Memory → Option ℤ
strcmp zero s1 s2 m = none
strcmp (suc fuel) s1 s2 m =
    let rest : Option ℤ = strcmp fuel (s1 + 1) (s2 + 1) m in
    if not (m s1 == 0) && (m s1 == m s2) then rest else some (sub_ℕ (m s1) (m s2))

-- `strncmp` compares as `char`, which is signed on x86-64: both sides are raised by 128.
unfoldable pub char_diff : ℕ → ℕ → ℤ
char_diff a b = sub_ℕ ((a + 128) % 256) ((b + 128) % 256)

unfoldable pub strncmp : ℕ → ℕ → ℕ → Memory → ℤ
unfolding char_diff
strncmp s1 s2 zero m = pos 0
strncmp s1 s2 (suc n) m =
    let rest : ℤ = strncmp (s1 + 1) (s2 + 1) n m in
    if not (m s1 == m s2) then char_diff (m s1) (m s2) else rest

-- The loop of `strcpy` and the store behind it.
unfoldable pub copy_text : ℕ → ℕ → ℕ → Memory → Option Memory
copy_text zero d s m = none
copy_text (suc fuel) d s m =
    let rest : Option Memory = copy_text fuel (d + 1) (s + 1) (store m d (m s)) in
    if m s == 0 then some (store m d 0) else rest

-- `strcpy` and `strncpy` return `d`, and do nothing if that is null.
unfoldable pub strcpy : ℕ → ℕ → ℕ → Memory → Option Memory
unfolding copy_text
strcpy fuel d s m = if d == 0 then some m else copy_text fuel d s m

-- The loop of `strncpy` ends by its count, so it takes no fuel.
unfoldable pub copy_bounded : ℕ → ℕ → ℕ → Memory → Memory
copy_bounded d s zero m = store m d 0
copy_bounded d s (suc n) m =
    let rest : Memory = copy_bounded (d + 1) (s + 1) n (store m d (m s)) in
    if m s == 0 then store m d 0 else rest

unfoldable pub strncpy : ℕ → ℕ → ℕ → Memory → Memory
unfolding copy_bounded
strncpy d s n m = if d == 0 then m else copy_bounded d s n m

unfoldable pub strchr : ℕ → ℕ → ℕ → Memory → Option (Option ℕ)
strchr zero s c m = none
strchr (suc fuel) s c m =
    let rest : Option (Option ℕ) = strchr fuel (s + 1) c m in
    if not (m s == c) && not (m s == 0) then rest else some (if m s == c then some s else none)

-- The loops of `strspn` and `strcspn`, from `s1` on with `len` characters counted.
unfoldable pub span_from : ℕ → ℕ → ℕ → ℕ → Memory → Option ℕ
unfolding strchr
span_from zero s1 s2 len m = none
span_from (suc fuel) s1 s2 len m =
    let rest : Option ℕ = span_from fuel (s1 + 1) s2 (len + 1) m in
    if m s1 == 0 then some len else elim (strchr (suc fuel) s2 (m s1) m) [
      | none ↦ none
      | some none ↦ some len
      | some (some p) ↦ rest
    ]

unfoldable pub strspn : ℕ → ℕ → ℕ → Memory → Option ℕ
unfolding span_from
strspn fuel s1 s2 m = if s1 == 0 || s2 == 0 then some 0 else span_from fuel s1 s2 0 m

unfoldable pub cspan_from : ℕ → ℕ → ℕ → ℕ → Memory → Option ℕ
unfolding strchr
cspan_from zero s1 s2 len m = none
cspan_from (suc fuel) s1 s2 len m =
    let rest : Option ℕ = cspan_from fuel (s1 + 1) s2 (len + 1) m in
    if m s1 == 0 then some len else elim (strchr (suc fuel) s2 (m s1) m) [
      | none ↦ none
      | some (some p) ↦ some len
      | some none ↦ rest
    ]

unfoldable pub strcspn : ℕ → ℕ → ℕ → Memory → Option ℕ
unfolding cspan_from
strcspn fuel s1 s2 m = if s1 == 0 || s2 == 0 then some 0 else cspan_from fuel s1 s2 0 m

-- The loop of `strstr` for a needle of `n` characters.
unfoldable pub find_text : ℕ → ℕ → ℕ → ℕ → Memory → Option (Option ℕ)
unfolding memcmp
find_text zero s1 s2 n m = none
find_text (suc fuel) s1 s2 n m =
    let rest : Option (Option ℕ) = find_text fuel (s1 + 1) s2 n m in
    if m s1 == 0
    then some none
    else elim (memcmp s1 s2 n m) [ pos zero ↦ some (some s1) | _ ↦ rest ]

unfoldable pub strstr : ℕ → ℕ → ℕ → Memory → Option (Option ℕ)
unfolding strlen find_text
strstr fuel s1 s2 m = elim (strlen fuel s2 m) [ none ↦ none | some n ↦ find_text fuel s1 s2 n m ]

-- `strtok` keeps the rest of the text in the static `p`, here `saved`; 0 is `nullptr`.
pub record Tokens : Type 0 where
  pub memory : Memory
  pub saved : ℕ
  pub token : ℕ

unfoldable pub cut_token : ℕ → ℕ → Memory → Tokens
cut_token s stop m =
    if m stop == 0
    then record { memory = m; saved = 0; token = s }
    else record { memory = store m stop 0; saved = stop + 1; token = s }

-- `strtok` from `s`, which is not null.
unfoldable pub token_from : ℕ → ℕ → ℕ → Memory → Option Tokens
unfolding cut_token strspn strcspn
token_from fuel s delim m = elim (strspn fuel s delim m) [
  | none ↦ none
  | some skip ↦
      if m (s + skip) == 0
      then some (record { memory = m; saved = 0; token = 0 })
      else elim (strcspn fuel (s + skip) delim m) [
        | none ↦ none
        | some len ↦ some (cut_token (s + skip) (s + skip + len) m)
      ]
]

unfoldable pub strtok : ℕ → ℕ → ℕ → ℕ → Memory → Option Tokens
unfolding token_from
strtok fuel saved s delim m =
    let from : ℕ = if s == 0 then saved else s in
    if from == 0
    then some (record { memory = m; saved = saved; token = 0 })
    else token_from fuel from delim m
