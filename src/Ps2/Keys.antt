-- ===== src/Ps2/Keys.antt =====
-- The key map of src/drivers/ps2.c and the table of scan codes that ps2_init fills from it.
use bloreos.Base.{
  ℕ, Bool, true, false, List, [], ◌∷◌, ◌++◌, Option, some, none, if◌then◌else◌, update,
}

pub record KeyEvent : Type 0 where
  pub scan_code : ℕ
  pub event_type : ℕ
  pub ascii : ℕ
  pub is_control : Bool

abbrev pub key : ℕ → ℕ → ℕ → KeyEvent
key scan_code event_type ascii = record {
  scan_code = scan_code;
  event_type = event_type;
  ascii = ascii;
  is_control = false;
}

abbrev pub control : ℕ → ℕ → ℕ → KeyEvent
control scan_code event_type ascii = record {
  scan_code = scan_code;
  event_type = event_type;
  ascii = ascii;
  is_control = true;
}

abbrev pub number_row : List KeyEvent
number_row =
    key 2 0 b'1'
    ∷ key 130 1 b'1'
    ∷ key 3 0 b'2'
    ∷ key 131 1 b'2'
    ∷ key 4 0 b'3'
    ∷ key 132 1 b'3'
    ∷ key 5 0 b'4'
    ∷ key 133 1 b'4'
    ∷ key 6 0 b'5'
    ∷ key 134 1 b'5'
    ∷ key 7 0 b'6'
    ∷ key 135 1 b'6'
    ∷ key 8 0 b'7'
    ∷ key 136 1 b'7'
    ∷ key 9 0 b'8'
    ∷ key 137 1 b'8'
    ∷ key 10 0 b'9'
    ∷ key 138 1 b'9'
    ∷ key 11 0 b'0'
    ∷ key 139 1 b'0'
    ∷ key 12 0 b'-'
    ∷ key 140 1 b'-'
    ∷ key 13 0 b'='
    ∷ key 141 1 b'='
    ∷ []

abbrev pub q_row : List KeyEvent
q_row =
    key 16 0 b'q'
    ∷ key 144 1 b'q'
    ∷ key 17 0 b'w'
    ∷ key 145 1 b'w'
    ∷ key 18 0 b'e'
    ∷ key 146 1 b'e'
    ∷ key 19 0 b'r'
    ∷ key 147 1 b'r'
    ∷ key 20 0 b't'
    ∷ key 148 1 b't'
    ∷ key 21 0 b'y'
    ∷ key 149 1 b'y'
    ∷ key 22 0 b'u'
    ∷ key 150 1 b'u'
    ∷ key 23 0 b'i'
    ∷ key 151 1 b'i'
    ∷ key 24 0 b'o'
    ∷ key 152 1 b'o'
    ∷ key 25 0 b'p'
    ∷ key 153 1 b'p'
    ∷ key 26 0 b'['
    ∷ key 154 1 b'['
    ∷ key 27 0 b']'
    ∷ key 155 1 b']'
    ∷ []

abbrev pub a_row : List KeyEvent
a_row =
    key 30 0 b'a'
    ∷ key 158 1 b'a'
    ∷ key 31 0 b's'
    ∷ key 159 1 b's'
    ∷ key 32 0 b'd'
    ∷ key 160 1 b'd'
    ∷ key 33 0 b'f'
    ∷ key 161 1 b'f'
    ∷ key 34 0 b'g'
    ∷ key 162 1 b'g'
    ∷ key 35 0 b'h'
    ∷ key 163 1 b'h'
    ∷ key 36 0 b'j'
    ∷ key 164 1 b'j'
    ∷ key 37 0 b'k'
    ∷ key 165 1 b'k'
    ∷ key 38 0 b'l'
    ∷ key 166 1 b'l'
    ∷ key 39 0 b';'
    ∷ key 167 1 b';'
    ∷ key 40 0 39
    ∷ key 168 1 39
    ∷ []

abbrev pub symbols : List KeyEvent
symbols =
    key 43 0 b'#'
    ∷ key 171 1 b'#'
    ∷ key 57 0 b' '
    ∷ key 185 1 b' '
    ∷ key 53 0 b'/'
    ∷ key 181 1 b'/'
    ∷ key 41 0 b'`'
    ∷ key 169 1 b'`'
    ∷ []

abbrev pub z_row : List KeyEvent
z_row =
    key 44 0 b'z'
    ∷ key 172 1 b'z'
    ∷ key 45 0 b'x'
    ∷ key 173 1 b'x'
    ∷ key 46 0 b'c'
    ∷ key 174 1 b'c'
    ∷ key 47 0 b'v'
    ∷ key 175 1 b'v'
    ∷ key 48 0 b'b'
    ∷ key 176 1 b'b'
    ∷ key 49 0 b'n'
    ∷ key 177 1 b'n'
    ∷ key 50 0 b'm'
    ∷ key 178 1 b'm'
    ∷ key 51 0 b','
    ∷ key 179 1 b','
    ∷ key 52 0 b'.'
    ∷ key 180 1 b'.'
    ∷ []

abbrev pub numpad : List KeyEvent
numpad =
    key 71 0 b'7'
    ∷ key 199 1 b'7'
    ∷ key 72 0 b'8'
    ∷ key 200 1 b'8'
    ∷ key 73 0 b'9'
    ∷ key 201 1 b'9'
    ∷ key 75 0 b'4'
    ∷ key 203 1 b'4'
    ∷ key 76 0 b'5'
    ∷ key 204 1 b'5'
    ∷ key 77 0 b'6'
    ∷ key 205 1 b'6'
    ∷ key 79 0 b'1'
    ∷ key 207 1 b'1'
    ∷ key 80 0 b'2'
    ∷ key 208 1 b'2'
    ∷ key 81 0 b'3'
    ∷ key 209 1 b'3'
    ∷ key 82 0 b'0'
    ∷ key 210 1 b'0'
    ∷ key 83 0 b'.'
    ∷ key 211 1 b'.'
    ∷ key 224 1 b'/'
    ∷ key 55 0 b'*'
    ∷ key 183 1 b'*'
    ∷ key 74 0 b'-'
    ∷ key 202 1 b'-'
    ∷ key 78 0 b'+'
    ∷ key 206 1 b'+'
    ∷ key 69 0 0
    ∷ key 197 1 0
    ∷ []

abbrev pub control_keys : List KeyEvent
control_keys =
    control 28 0 10
    ∷ control 156 1 0
    ∷ control 14 0 0
    ∷ control 142 1 0
    ∷ control 42 0 0
    ∷ control 170 1 0
    ∷ control 54 0 0
    ∷ control 182 1 0
    ∷ control 29 0 0
    ∷ control 157 1 0
    ∷ control 56 0 0
    ∷ control 184 1 0
    ∷ control 15 0 9
    ∷ control 143 1 0
    ∷ control 1 0 0
    ∷ control 129 1 0
    ∷ control 58 0 0
    ∷ control 186 1 0
    ∷ []

abbrev pub key_map : List KeyEvent
key_map = number_row ++ q_row ++ a_row ++ symbols ++ z_row ++ numpad ++ control_keys

-- The table, and the scan codes of which `already registered` was printed.
pub record KeyTable : Type 0 where
  pub scancode_map : ℕ → Option KeyEvent
  pub registered_twice : List ℕ

unfoldable pub is_set : Option KeyEvent → Bool
is_set none = false
is_set (some k) = true

-- The loop that ends ps2_init.
unfoldable pub register_keys : List KeyEvent → KeyTable → KeyTable
unfolding is_set
register_keys [] s = s
register_keys (k ∷ ks) s = register_keys ks (record {
  scancode_map = update s.scancode_map k.scan_code (some k);
  registered_twice =
      if is_set (s.scancode_map k.scan_code)
      then k.scan_code ∷ s.registered_twice
      else s.registered_twice;
})
