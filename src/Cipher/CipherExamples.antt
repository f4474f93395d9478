-- ===== src/Cipher/CipherExamples.antt =====
-- Tests of the encryption server, and its theorem at a concrete file.
use cn_assignments.Base.{
  joined, take, drop, take-drop, append-nil, ap, List, ◌++◌, ◌∙◌, done, some, freads, ◌≡◌, refl,
  Bytes, [], ◌∷◌, codes, map, starts_with, arith,
}
use cn_assignments.Cipher.{before_marker, receive_file, substitute}
use cn_assignments.Cipher.Substitution.{IsInverse, All-IsInverse}
use cn_assignments.Cipher.FileClient.{
  encrypt_remotely, send_file, IsStream, Arrives, remote_inverse,
}

abbrev key : Bytes
key = codes "ZYXWVUTSRQPONMLKJIHGFEDCBA"

key-IsInverse : IsInverse key key
key-IsInverse = All-IsInverse key key (ground arith)

swapped : map (substitute key) (codes "Az!") ≡ codes "Za!"
unfolding substitute
swapped = refl

-- a marker that two pieces share is not seen
split_marker : receive_file (codes "hi EOF_" ∷ codes "MARKER" ∷ []) ≡ codes "hi EOF_MARKER"
unfolding receive_file before_marker starts_with
split_marker = refl

abbrev hello : Bytes
hello = codes "Hello, world"

-- a network that delivers the key, then the text in two pieces, the second with the marker
abbrev in_parts : List Bytes → List Bytes
in_parts [] = []
in_parts (k ∷ sent) = let text = joined sent in k ∷ take 7 text ∷ drop 7 text ∷ []

in_parts-IsStream : IsStream in_parts
in_parts-IsStream [] = refl
in_parts-IsStream (k ∷ sent) =
    ap (λ t. k ++ t)
      (ap (λ t. take 7 (joined sent) ++ t) (append-nil (drop 7 (joined sent)))
        ∙ take-drop 7 (joined sent))

hello-Arrives : Arrives key (in_parts (key ∷ send_file hello))
unfolding send_file freads before_marker starts_with
hello-Arrives = record {
  front = codes "Hello, " ∷ [];
  last = codes "world";
  comes_as = refl;
  unmarked = (refl, tt);
  marked = refl;
}

secret-Arrives : Arrives key (in_parts (key ∷ send_file (map (substitute key) hello)))
unfolding send_file freads before_marker starts_with substitute
secret-Arrives = record {
  front = codes "Svool, " ∷ [];
  last = codes "dliow";
  comes_as = refl;
  unmarked = (refl, tt);
  marked = refl;
}

remote_inverse_example :
    (encrypt_remotely in_parts (λ sent. sent) (some hello) key
      ≡ done (some (map (substitute key) hello)))
    × (encrypt_remotely in_parts (λ sent. sent) (some (map (substitute key) hello)) key
        ≡ done (some hello))
remote_inverse_example =
    remote_inverse hello key key in_parts (λ sent. sent) refl refl key-IsInverse key-IsInverse
      (ground arith) in_parts-IsStream (λ sent. refl) hello-Arrives secret-Arrives
