-- ===== src/Time.antt =====
-- time.Time as a whole number of nanoseconds from the Unix epoch, with the operations of the
-- standard library that the program uses. Instants do not wrap: the years past 292 billion at
-- which time.Unix does are left out.
use aegis_router.Base.{ℕ, ◌+◌, ◌/◌, ◌%◌, ◌^◌, Bool, ltb, ◌==◌, if◌then◌else◌}
use aegis_router.Base.Int.{ℤ, pos, negsuc, ◌+ℤ◌, ◌-ℤ◌, ◌*ℤ◌, div_floor, ltb_ℤ, int_eq}

abbrev pub Time : Type 0
Time = ℤ

-- A time.Duration in nanoseconds.
abbrev pub second : ℕ
second = 1_000_000_000

-- The zero time.Time, January 1 of year 1, is 62135596800 seconds before the epoch.
abbrev pub zero_time : Time
zero_time = negsuc 62_135_596_799_999_999_999

abbrev pub is_zero : Time → Bool
is_zero t = t == zero_time

-- time.Unix(sec, 0)
unfoldable pub unix_time : ℤ → Time
unix_time sec = sec *ℤ second

-- t.Unix()
unfoldable pub to_unix : Time → ℤ
to_unix t = div_floor t second

abbrev pub before : Time → Time → Bool
before t u = ltb_ℤ t u

abbrev pub after : Time → Time → Bool
after t u = ltb_ℤ u t

-- t.Add(d) for a duration d that is not negative
abbrev pub add : Time → ℕ → Time
add t d = t +ℤ pos d

-- d.Milliseconds() for a duration d: a division that rounds towards zero
unfoldable pub milliseconds : ℤ → ℤ
milliseconds (pos n) = pos (n / 1_000_000)
milliseconds (negsuc n) = pos 0 -ℤ pos ((n + 1) / 1_000_000)

-- The int64 that a whole number is cut to
unfoldable pub wrap_int64 : ℤ → ℤ
wrap_int64 (pos n) =
    let low = n % 2 ^ 64 in if ltb low (2 ^ 63) then pos low else pos low -ℤ pos (2 ^ 64)
wrap_int64 (negsuc n) =
    let low = n % 2 ^ 64 in if ltb low (2 ^ 63) then negsuc low else pos (2 ^ 64) +ℤ negsuc low

-- elapsedMilliseconds of internal/router/router.go
unfoldable pub elapsed_milliseconds : Time → Time → ℤ
elapsed_milliseconds start end = if before end start then pos 0 else milliseconds (end -ℤ start)
