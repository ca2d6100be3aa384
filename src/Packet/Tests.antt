-- ===== src/Packet/Tests.antt =====
-- The packet codec on concrete packets.
use etheos.Base.{ℕ, ◌+◌, ◌<◌, ◌≡◌, refl, some, List, [], ◌∷◌, arith, length, drop}
use etheos.Packet.Number.{e_number}
use etheos.Packet.Id.{pid}
use etheos.Packet.Reader.{
  Reader, ok, npos, new_reader, action, family, remaining, get_byte, get_break_string,
  get_end_string, get_number, overrun, out_of_range,
}
use etheos.Packet.Reader.Bounds.{IsWithin, get_break_string-at_end}
use etheos.Packet.Builder.{
  Builder, new_builder, get, add_byte, add_char, add_short, add_three, add_int, add_break_string,
}
use etheos.Packet.Builder.Roundtrip.{
  Field, byte, char, short, three, int, text, add_field, add_fields, get_fields,
  get_fields-add_fields,
}
use etheos.Packet.Cipher.{Processor, dick_winder, encode, decode}
use etheos.Packet.Cipher.Wind.{dick_winder-swaps_header}
use etheos.Packet.Cipher.Roundtrip.{IsPlain, decode-encode}

abbrev fields : List Field
fields = short 300 ∷ text (104 ∷ 105 ∷ []) ∷ byte 255 ∷ int 100000 ∷ three 70000 ∷ char 9 ∷ []

fields_size : length (add_fields fields (new_builder 27 3)).bytes + 2 < npos
unfolding add_fields new_builder pid add_field add_byte add_char add_short add_three add_int
    add_break_string e_number
fields_size = omega arith

get_fields-add_fields_example :
    (action (new_reader (drop 2 (get (add_fields fields (new_builder 27 3))))) ≡ 3)
    × (family (new_reader (drop 2 (get (add_fields fields (new_builder 27 3))))) ≡ 27)
    × (r' : Reader) × (get_fields fields
          (new_reader (drop 2 (get (add_fields fields (new_builder 27 3)))))
        ≡ ok (fields, r'))
    × (remaining r' ≡ 0)
get_fields-add_fields_example =
    get_fields-add_fields 27 3 fields (omega arith) (omega arith) (omega arith) (ground arith)
      fields_size

abbrev small : Builder
small = record { id = 795; bytes = 1 ∷ 2 ∷ 3 ∷ []; add_size = 4 }

abbrev sample : Reader
sample = record { bytes = 3 ∷ 27 ∷ 65 ∷ 255 ∷ 9 ∷ []; pos = 2 }

sample-IsWithin : IsWithin sample
sample-IsWithin = record { cursor = omega arith; sized = omega arith }

abbrev read : Reader
read = record sample { pos = 5 }

get_break_string-at_end_example :
    (get_break_string 255 read ≡ ok ([], record read { pos = 6 }))
    × (get_byte (record read { pos = 6 }) ≡ overrun)
    × (get_number 2 (record read { pos = 6 }) ≡ overrun)
    × (get_end_string (record read { pos = 6 }) ≡ out_of_range)
get_break_string-at_end_example =
    get_break_string-at_end 255 2 read (record { cursor = omega arith; sized = omega arith }) refl
      (omega arith)

abbrev payload : List ℕ
payload = 5 ∷ 2 ∷ 14 ∷ 21 ∷ 0 ∷ 128 ∷ 9 ∷ []

dick_winder-swaps_header_example :
    dick_winder (14 ∷ 21 ∷ 5 ∷ payload) 7 ≡ 21 ∷ 14 ∷ 5 ∷ dick_winder payload 7
dick_winder-swaps_header_example =
    dick_winder-swaps_header 14 21 5 7 payload (omega arith) refl refl (omega arith)

abbrev server : Processor
server = record { emulti_e = 7; emulti_d = 9 }

abbrev client : Processor
client = record { emulti_e = 9; emulti_d = 7 }

payload-IsPlain : IsPlain (dick_winder payload 7)
unfolding dick_winder
payload-IsPlain = (omega arith, omega arith, omega arith, omega arith, omega arith)

decode-encode_example :
    (q : List ℕ) × (encode server (8 ∷ 254 ∷ payload) ≡ some (8 ∷ 254 ∷ q))
    × (decode client q ≡ some payload)
decode-encode_example =
    decode-encode server client 8 254 payload refl (omega arith) (omega arith) refl (ground arith)
      payload-IsPlain
