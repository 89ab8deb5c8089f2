-- ===== src/Addressing/RoundTrip.antt =====
-- An address is parsed back from its text.
use neo4j_python_driver.Base.{
  ℕ, List, [], ◌∷◌, ◌++◌, Bool, true, false, Option, none, some, ◌≡◌, ◌≢◌, refl, ap, ◌==◌, All,
  ==_refl, arith, map, Bool-cases, inl, inr,
}
use neo4j_python_driver.Base.Int.{ℤ, pos, negsuc}
use neo4j_python_driver.Addressing.{
  CodePoints, Port, number, service, Address, ipv4, ipv6, partition, split_last, rpartition, lstrip,
  host_or, port_or, port_as, parse_ipv6, parse_ipv4, parse, port_text, to_text, join_texts,
  and_word, words_from, split, parse_list,
}

abbrev pub Lacks : ℕ → CodePoints → Type 0
Lacks sep s = All (λ c. (c == sep) ≡ false) s

partition-append :
    (sep : ℕ) (a b : CodePoints) → Lacks sep a → partition sep (a ++ (sep ∷ b)) ≡ (a, b)
unfolding partition
partition-append sep [] b h = rw (==_refl sep) refl
partition-append sep (c ∷ a) b (h, hs) = rw (h, partition-append sep a b hs) refl

split_last-Lacks : (sep : ℕ) (b : CodePoints) → Lacks sep b → split_last sep b ≡ none
unfolding split_last
split_last-Lacks sep [] h = refl
split_last-Lacks sep (c ∷ b) (h, hs) = rw (split_last-Lacks sep b hs, h) refl

split_last-append :
    (sep : ℕ) (a b : CodePoints) → Lacks sep b → split_last sep (a ++ (sep ∷ b)) ≡ some (a, b)
unfolding split_last
split_last-append sep [] b h = rw (split_last-Lacks sep b h, ==_refl sep) refl
split_last-append sep (c ∷ a) b h = rw (split_last-append sep a b h) refl

-- A text begins with a character, which is not `sep`.
abbrev pub Begins : ℕ → CodePoints → Type 0
Begins sep [] = ⊥
Begins sep (c ∷ cs) = (c == sep) ≡ false

lstrip-Begins : (sep : ℕ) (s : CodePoints) → Begins sep s → lstrip sep (sep ∷ s) ≡ s
unfolding lstrip
lstrip-Begins sep [] h = absurd h
lstrip-Begins sep (c ∷ cs) h = rw (==_refl sep, h) refl

module _ (int_of : CodePoints → Option ℤ) (str_of : ℤ → CodePoints) where
  -- A port that is read as itself: a number other than 0 that `int` reads from its text, or a text, not
  -- empty, that `int` does not read.
  abbrev pub Readable : Port → Type 0
  Readable (number z) = (z ≢ pos 0) × (int_of (str_of z) ≡ some z)
  Readable (service s) = (s ≢ []) × (int_of s ≡ none)

  -- An IPv4 host has no colon and does not begin with a bracket. The port of an IPv6 address has no
  -- closing bracket and does not begin with a colon.
  abbrev pub Printable : Address → Type 0
  Printable (ipv4 host port) = Begins b'[' host × Lacks b':' host × Readable port
  Printable (ipv6 host port) =
      (host ≢ [])
      × Lacks b']' (port_text str_of port)
      × Begins b':' (port_text str_of port)
      × Readable port

  nonzero : (n : ℕ) → pos n ≢ pos 0 → (n == 0) ≡ false
  nonzero n h = elim (Bool-cases (n == 0)) [
    | inl z ↦ absurd (h (ap pos (ground (arith, z))))
    | inr z ↦ z
  ]

  port_or-Readable :
      (port : Port) (default_port : Option ℤ)
      → Readable port
      → port_or (port_as (port_text str_of port) (int_of (port_text str_of port))) default_port
        ≡ port
  unfolding port_or
  port_or-Readable (number (pos n)) d (h, e) = rw (e, nonzero n h) refl
  port_or-Readable (number (negsuc n)) d (h, e) = rw e refl
  port_or-Readable (service []) d (h, e) = absurd (h refl)
  port_or-Readable (service (c ∷ s)) d (h, e) = rw e refl

  host_kept :
      (host : CodePoints) (default_host : Option CodePoints)
      → host ≢ []
      → host_or host default_host ≡ host
  unfolding host_or
  host_kept [] d h = absurd (h refl)
  host_kept (c ∷ cs) d h = refl

  ipv4_text :
      (host : CodePoints) (port : Port) (default_host : Option CodePoints) (default_port : Option ℤ)
      → Printable (ipv4 host port)
      → parse int_of (to_text str_of (ipv4 host port)) default_host default_port ≡ ipv4 host port
  unfolding parse to_text parse_ipv4 host_or
  ipv4_text [] port dh dp (b, l, r) = absurd b
  ipv4_text (c ∷ cs) port dh dp (b, l, r) =
      rw (b, partition-append b':' (c ∷ cs) (port_text str_of port) l, port_or-Readable port dp r)
        refl

  ipv6_text :
      (host : CodePoints) (port : Port) (default_host : Option CodePoints) (default_port : Option ℤ)
      → Printable (ipv6 host port)
      → parse int_of (to_text str_of (ipv6 host port)) default_host default_port ≡ ipv6 host port
  unfolding parse to_text parse_ipv6 rpartition
  ipv6_text host port dh dp (h, l, b, r) =
      rw
        (
          split_last-append b']' host (b':' ∷ port_text str_of port) (refl, l),
          lstrip-Begins b':' (port_text str_of port) b,
          host_kept host dh h,
          port_or-Readable port dp r,
        )
        refl

-- An address is parsed back from its text, whatever the defaults are.
pub parse-to_text :
    (int_of : CodePoints → Option ℤ) (str_of : ℤ → CodePoints) (a : Address)
    (default_host : Option CodePoints) (default_port : Option ℤ)
    → Printable int_of str_of a
    → parse int_of (to_text str_of a) default_host default_port ≡ a
parse-to_text int_of str_of (ipv4 host port) dh dp h = ipv4_text int_of str_of host port dh dp h
parse-to_text int_of str_of (ipv6 host port) dh dp h = ipv6_text int_of str_of host port dh dp h

module _ (is_space : ℕ → Bool) (space : is_space b' ' ≡ true) where
  -- A word: not empty, and without white space.
  abbrev Word : CodePoints → Type 0
  Word s = (s ≢ []) × All (λ c. is_space c ≡ false) s

  words_from-append :
      (w s : CodePoints)
      → All (λ c. is_space c ≡ false) w
      → words_from is_space (w ++ (b' ' ∷ s)) ≡ (w, split is_space s)
  unfolding words_from split
  words_from-append [] s h = rw space refl
  words_from-append (c ∷ w) s (h, hs) = rw (words_from-append w s hs, h) refl

  words_from_word :
      (w : CodePoints) → All (λ c. is_space c ≡ false) w → words_from is_space w ≡ (w, [])
  unfolding words_from
  words_from_word [] h = refl
  words_from_word (c ∷ w) (h, hs) = rw (words_from_word w hs, h) refl

  and_word_kept : (w : CodePoints) (ws : List CodePoints) → w ≢ [] → and_word w ws ≡ w ∷ ws
  and_word_kept [] ws h = absurd (h refl)
  and_word_kept (c ∷ w) ws h = refl

  split-join_texts : (ws : List CodePoints) → All Word ws → split is_space (join_texts ws) ≡ ws
  unfolding split join_texts
  split-join_texts [] h = unfold words_from in refl
  split-join_texts (w ∷ []) ((e, h), _) = rw (words_from_word w h, and_word_kept w [] e) refl
  split-join_texts (w ∷ v ∷ ws) ((e, h), hs) =
      rw
        (
          words_from-append w (join_texts (v ∷ ws)) h,
          and_word_kept w (split is_space (join_texts (v ∷ ws))) e,
        )
        (ap (λ l. w ∷ l) (split-join_texts (v ∷ ws) hs))

  -- Texts without white space are parsed one by one.
  parse_list_lem :
      (int_of : CodePoints → Option ℤ) (ws : List CodePoints) (default_host : Option CodePoints)
      (default_port : Option ℤ)
      → All Word ws
      → parse_list int_of is_space ws default_host default_port
        ≡ map (λ s. parse int_of s default_host default_port) ws
  unfolding parse_list
  parse_list_lem int_of ws dh dp h = rw (split-join_texts ws h) refl
