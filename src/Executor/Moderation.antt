-- ===== src/Executor/Moderation.antt =====
-- packages/executor/src/moderation/scanner.ts. `matches` is the engine of regular expressions, applied
-- to the source of a pattern and its flags.
use secure_openclaw_poc.Common.{
  List, ◌++◌, Bool, Option, String, Text, [], any, if◌then◌else◌, false, get_or, str_eq, true, ◌∷◌,
}

pub data ModerationMode : Type 0 where
  enforce warn off : ModerationMode

pub record Pattern : Type 0 where
  pub source : String
  pub flags : String
  pub category : String

pub record ScanResult : Type 0 where
  pub flagged : Bool
  pub categories : List String
  pub reasons : List String

pub record ModerationResult : Type 0 where
  pub blocked : Bool
  pub scan_result : ScanResult

abbrev injection : String → String → Pattern
injection source flags = record { source = source; flags = flags; category = "prompt_injection" }

abbrev exfiltration : String → String → Pattern
exfiltration source flags = record { source = source; flags = flags; category = "exfiltration" }

abbrev pub harmful_patterns : List Pattern
harmful_patterns =
    injection "ignore\\s+(all\\s+)?previous\\s+instructions" "i"
    ∷ injection "you\\s+are\\s+now\\s+(a|an)\\s+" "i"
    ∷ injection "system\\s*:\\s*you\\s+are" "i"
    ∷ injection "\\bDAN\\s+mode\\b" "i"
    ∷ exfiltration "base64\\s+encode.*secret" "i"
    ∷ exfiltration "curl.*-d.*password" "i"
    ∷ exfiltration "wget.*--post-data.*token" "i"
    ∷ exfiltration "\\b(curl|wget)\\b.*\\$\\(" ""
    ∷ exfiltration "\\b(curl|wget)\\b.*`[^`]+`" ""
    ∷ exfiltration "\\bbase64\\b.*\\|\\s*(curl|wget|nc|netcat)\\b" ""
    ∷ exfiltration "\\/dev\\/tcp\\/" ""
    ∷ exfiltration "python[23]?\\s+-c\\s+.*\\b(urllib|requests|http\\.client)\\b" ""
    ∷ exfiltration "node\\s+-e\\s+.*\\b(http|https|fetch)\\b" ""
    ∷ exfiltration "\\|\\s*(nc|netcat)\\b" ""
    ∷ []

abbrev pub no_match : ScanResult
no_match = record { flagged = false; categories = []; reasons = [] }

-- One turn of the loop in `scanContent`, for a pattern that matches.
abbrev pub add_match : Pattern → ScanResult → ScanResult
add_match p r = record {
  flagged = true;
  categories =
      if any (λ c. str_eq c p.category) r.categories
      then r.categories
      else r.categories ++ p.category ∷ [];
  reasons = r.reasons ++ p.category ∷ [];
}

-- `getModerationMode`, from the two variables of the environment.
unfoldable pub get_moderation_mode : (mode docker : Option String) → ModerationMode
get_moderation_mode mode docker =
    let given = get_or mode "" in
    if str_eq given "enforce"
    then enforce
    else if str_eq given "off"
    then off
    else if str_eq given "warn"
    then warn
    else if str_eq (get_or docker "") "true"
    then enforce
    else warn

module _ (matches : (source flags : String) → Text → Bool) where
  pub scan_patterns : List Pattern → Text → ScanResult → ScanResult
  scan_patterns [] text r = r
  scan_patterns (p ∷ ps) text r =
      scan_patterns ps text (if matches p.source p.flags text then add_match p r else r)

  unfoldable pub scan_content : Text → ScanResult
  unfolding scan_patterns
  scan_content text = scan_patterns harmful_patterns text no_match

  unfoldable pub moderate : ModerationMode → Text → ModerationResult
  moderate off text = record { blocked = false; scan_result = no_match }
  moderate warn text = record { blocked = false; scan_result = scan_content text }
  moderate enforce text =
      let r = scan_content text in record { blocked = r.flagged; scan_result = r }
