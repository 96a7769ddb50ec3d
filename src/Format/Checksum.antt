-- ===== src/Format/Checksum.antt =====
-- format.c: the checksum of the superblock and the ports.
use olivehc.Prelude.{
  ℕ, zero, suc, ◌+◌, ◌*◌, ◌/◌, ◌%◌, ◌^◌, ◌≡◌, List, [], ◌∷◌, ◌++◌, arith, refl, ap, sym, ◌∙◌,
}
use olivehc.Format.{
  ohc_fm_chs_feed, Superblock, xor, checksum_from, format_checksum, superblock_words,
}

xor_comm : (w a b : ℕ) → xor w a b ≡ xor w b a
unfolding xor
xor_comm zero a b = refl
xor_comm (suc w) a b = let rest = xor_comm w (a / 2) (b / 2) in omega (arith, rest)

xor-xor : (w a b c : ℕ) → xor w (xor w a b) c ≡ xor w a (xor w b c)
unfolding xor
xor-xor zero a b c = refl
xor-xor (suc w) a b c =
    let left : ((a + b) % 2 + 2 * xor w (a / 2) (b / 2)) / 2 ≡ xor w (a / 2) (b / 2) =
      omega arith in
    let right : ((b + c) % 2 + 2 * xor w (b / 2) (c / 2)) / 2 ≡ xor w (b / 2) (c / 2) =
      omega arith in
    let rest = xor-xor w (a / 2) (b / 2) (c / 2) in rw (left, right, rest) (omega arith)

xor_self : (w a : ℕ) → xor w a a ≡ 0
unfolding xor
xor_self zero a = refl
xor_self (suc w) a = let rest = xor_self w (a / 2) in omega (arith, rest)

-- The result has no more bits.
xor-zero : (w a b : ℕ) → xor w (xor w a b) 0 ≡ xor w a b
unfolding xor
xor-zero zero a b = refl
xor-zero (suc w) a b =
    let half : ((a + b) % 2 + 2 * xor w (a / 2) (b / 2)) / 2 ≡ xor w (a / 2) (b / 2) =
      omega arith in
    let rest = xor-zero w (a / 2) (b / 2) in rw (half, rest) (omega arith)

-- What was summed before comes out of the rest.
checksum_from-xor :
    (a b : ℕ) (ws : List ℕ) → checksum_from (xor 64 a b) ws ≡ xor 64 a (checksum_from b ws)
unfolding checksum_from
checksum_from-xor a b [] = refl
checksum_from-xor a b (w ∷ ws) =
    ap (λ x. checksum_from x ws) (xor-xor 64 a b w) ∙ checksum_from-xor a (xor 64 b w) ws

checksum_from-append :
    (a : ℕ) (vs ws : List ℕ) → checksum_from a (vs ++ ws) ≡ checksum_from (checksum_from a vs) ws
unfolding checksum_from
checksum_from-append a [] ws = refl
checksum_from-append a (v ∷ vs) ws = checksum_from-append (xor 64 a v) vs ws

-- A sum with two equal parts is the rest.
xor_twice : (a b c : ℕ) → xor 64 (xor 64 (xor 64 a b) c) (xor 64 a b) ≡ xor 64 c 0
xor_twice a b c =
    ap (λ x. xor 64 x (xor 64 a b)) (xor_comm 64 (xor 64 a b) c)
    ∙ xor-xor 64 c (xor 64 a b) (xor 64 a b)
    ∙ ap (xor 64 c) (xor_self 64 (xor 64 a b))

zero-xor : (a b : ℕ) → xor 64 0 (xor 64 a b) ≡ xor 64 a b
zero-xor a b = xor_comm 64 0 (xor 64 a b) ∙ xor-zero 64 a b

feed_is : xor 64 ohc_fm_chs_feed 0 ≡ ohc_fm_chs_feed
unfolding xor
feed_is = refl

-- The words of a superblock with a checksum, and those with 0 in its place.
superblock-checksum :
    (s : Superblock) (c : ℕ)
    → format_checksum (superblock_words (record s { checksum = c }))
      ≡ xor 64 c (format_checksum (superblock_words (record s { checksum = 0 })))
unfolding checksum_from
superblock-checksum s c = at_words
  where
    v : ℕ
    v = s.version + 2 ^ 32 * s.padding

    a : ℕ
    a = xor 64 (xor 64 0 s.magic) v

    at_words : xor 64 (xor 64 a c) s.item_nr ≡ xor 64 c (xor 64 (xor 64 a 0) s.item_nr)
    at_words =
        ap (λ x. xor 64 x s.item_nr) (xor_comm 64 a c)
        ∙ xor-xor 64 c a s.item_nr
        ∙ ap (λ x. xor 64 c (xor 64 x s.item_nr)) (sym (xor-zero 64 (xor 64 0 s.magic) v))

-- A superblock with the checksum that is written sums up to the feed, with the ports.
pub stored-checksum :
    (s : Superblock) (ports : List ℕ)
    → format_checksum (
        superblock_words (record s {
          checksum =
              xor 64
                (xor 64
                  (xor 64 0 (format_checksum (superblock_words (record s { checksum = 0 }))))
                  (format_checksum ports))
                ohc_fm_chs_feed;
        })
        ++ ports)
      ≡ ohc_fm_chs_feed
unfolding checksum_from
stored-checksum s ports =
    checksum_from-append 0 (superblock_words (record s { checksum = c })) ports
    ∙ ap (λ x. checksum_from x ports) (superblock-checksum s c)
    ∙ checksum_from-xor c q ports
    ∙ ap (xor 64 c) rest
    ∙ ap (λ x. xor 64 (xor 64 (xor 64 x p) ohc_fm_chs_feed) (xor 64 q p)) q_is
    ∙ xor_twice q p ohc_fm_chs_feed
    ∙ feed_is
  where
    q : ℕ
    q = format_checksum (superblock_words (record s { checksum = 0 }))

    p : ℕ
    p = format_checksum ports

    c : ℕ
    c = xor 64 (xor 64 (xor 64 0 q) p) ohc_fm_chs_feed

    q_is : xor 64 0 q ≡ q
    q_is =
        zero-xor (xor 64 (xor 64 (xor 64 0 s.magic) (s.version + 2 ^ 32 * s.padding)) 0) s.item_nr

    rest : checksum_from q ports ≡ xor 64 q p
    rest =
        ap (λ x. checksum_from x ports)
          (sym (
            xor-zero 64 (xor 64 (xor 64 (xor 64 0 s.magic) (s.version + 2 ^ 32 * s.padding)) 0)
              s.item_nr))
        ∙ checksum_from-xor q 0 ports
