-- ===== src/Addressing/Tests.antt =====
-- Addresses with a port of four digits.
use neo4j_python_driver.Base.{
  ℕ, ◌+◌, ◌-◌, ◌*◌, ◌/◌, ◌%◌, [], ◌∷◌, Bool, ◌&&◌, Option, none, some, leb, ◌==◌, if◌then◌else◌,
  ◌≡◌, ◌≢◌, refl, arith, err,
}
use neo4j_python_driver.Base.Int.{ℤ, pos, pos_part}
use neo4j_python_driver.Addressing.{
  CodePoints, number, service, ipv4, ipv6, value_error, localhost, partition, split_last,
  rpartition, lstrip, host_or, port_or, parse_ipv6, parse_ipv4, parse, join_texts, words_from,
  split, parse_list, to_text, port_number,
}
use neo4j_python_driver.Addressing.RoundTrip.{parse-to_text}

abbrev is_digit : ℕ → Bool
is_digit c = leb b'0' c && leb c b'9'

-- Numbers of four digits.
abbrev read : CodePoints → Option ℤ
read (a ∷ b ∷ c ∷ d ∷ []) =
    if is_digit a && is_digit b && is_digit c && is_digit d
    then some (pos ((a - 48) * 1000 + (b - 48) * 100 + (c - 48) * 10 + (d - 48)))
    else none
read [] = none
read (a ∷ []) = none
read (a ∷ b ∷ []) = none
read (a ∷ b ∷ c ∷ []) = none
read (a ∷ b ∷ c ∷ d ∷ e ∷ s) = none

abbrev digits : ℕ → CodePoints
digits n = (48 + n / 1000) ∷ (48 + n / 100 % 10) ∷ (48 + n / 10 % 10) ∷ (48 + n % 10) ∷ []

abbrev print : ℤ → CodePoints
print z = digits (pos_part z)

abbrev loopback : CodePoints
loopback = b':' ∷ b':' ∷ b'1' ∷ []

default_of_port :
    parse read (b'h' ∷ []) none (some (pos 7687)) ≡ ipv4 (b'h' ∷ []) (number (pos 7687))
unfolding parse parse_ipv4 partition host_or port_or
default_of_port = refl

-- With a bracket that is not closed all of the text is the port.
unclosed : parse read (b'[' ∷ b'1' ∷ []) none none ≡ ipv6 localhost (service (b'1' ∷ []))
unfolding parse parse_ipv6 rpartition split_last lstrip host_or port_or
unclosed = refl

two_words :
    parse_list read (λ c. c == b' ') ((b'a' ∷ b' ' ∷ b'b' ∷ []) ∷ []) none none
    ≡ ipv4 (b'a' ∷ []) (number (pos 0)) ∷ ipv4 (b'b' ∷ []) (number (pos 0)) ∷ []
unfolding parse_list join_texts split words_from parse parse_ipv4 partition host_or port_or
two_words = refl

no_service : port_number read (λ s. none) (service (b'x' ∷ [])) ≡ err value_error
unfolding port_number
no_service = refl

cons-ne-nil : {c : ℕ} {s : CodePoints} → (c ∷ s) ≢ []
cons-ne-nil e = cc

parse-to_text_example :
    parse read (to_text print (ipv6 loopback (number (pos 7687)))) none none
    ≡ ipv6 loopback (number (pos 7687))
parse-to_text_example =
    parse-to_text read print (ipv6 loopback (number (pos 7687))) none none
      (cons-ne-nil, (refl, (refl, (refl, (refl, tt)))), refl, (not_zero, refl))
  where
    not_zero : pos 7687 ≢ pos 0
    not_zero e = ground (arith, e)
