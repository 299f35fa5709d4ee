-- ===== src/Mdns/Results.antt =====
-- The results of a query as ESP-IDF hands them out: the list of mdns_result_t that
-- getAsyncQueryResults() of ESPmDNS.cpp builds. What malloc() grants is a parameter.
use epoxy_duino.Base.{
  ℕ, ◌+◌, ◌%◌, ◌^◌, Bool, if◌then◌else◌, List, [], ◌∷◌, Option, none, some, length,
}
use epoxy_duino.Base.Text.{Bytes}
use epoxy_duino.Address.Words.{to_word}
use epoxy_duino.Mdns.Maps.{TextMap}
use epoxy_duino.Mdns.Search.{MdnsService}

-- What malloc() grants for a result: the result, the texts and the address in it, both arrays of its
-- TXT items, and the key and the value of the item at an index.
pub record Allocation : Type 0 where
  pub node : Bool
  pub host : Bool
  pub instance_text : Bool
  pub addr : Bool
  pub txt : Bool
  pub key_buf : ℕ → Bool
  pub val_buf : ℕ → Bool

-- A text or an address that was not allocated is `none`; a TXT item is its key, its value, and the
-- length of the value in a uint8_t. The TXT items are `none` where an array of theirs was not
-- allocated: the source writes to it all the same, which is undefined.
pub record MdnsResult : Type 0 where
  pub answer_hostname : Option Bytes
  pub answer_instance : Option Bytes
  pub answer_addr : Option ℕ
  pub answer_port : ℕ
  pub answer_ttl : ℕ
  pub answer_txt : Option (List (Option Bytes × Option Bytes × ℕ))

abbrev pub granted : {A : Type 0} → Bool → A → Option A
granted ok a = if ok then some a else none

-- the loop over the TXT records, from an index on
abbrev pub txt_items : Allocation → ℕ → TextMap → List (Option Bytes × Option Bytes × ℕ)
txt_items g idx [] = []
txt_items g idx (e ∷ es) =
    (granted (g.key_buf idx) e.0, granted (g.val_buf idx) e.1, length e.1 % 2 ^ 8)
    ∷ txt_items g (idx + 1) es

abbrev pub some_text : Bool → Bytes → Option Bytes
some_text ok [] = none
some_text ok (c ∷ cs) = granted ok (c ∷ cs)

-- no array is allocated where there is no item
abbrev pub result_txt : Allocation → TextMap → Option (List (Option Bytes × Option Bytes × ℕ))
result_txt g [] = some []
result_txt g (e ∷ es) = granted g.txt (txt_items g 0 (e ∷ es))

unfoldable pub to_result : Allocation → MdnsService → MdnsResult
unfolding to_word
to_result g s = record {
  answer_hostname = granted g.host s.hostname;
  answer_instance = some_text g.instance_text s.instance_name;
  answer_addr = granted g.addr (to_word s.ip);
  answer_port = s.port;
  answer_ttl = 4500;
  answer_txt = result_txt g s.txt_records;
}

-- The loop over the results, from the one at `i` on, which ends where a result is not allocated.
abbrev pub to_results : (ℕ → Allocation) → ℕ → List MdnsService → List MdnsResult
to_results grants i [] = []
to_results grants i (s ∷ ss) =
    if (grants i).node then to_result (grants i) s ∷ to_results grants (i + 1) ss else []
