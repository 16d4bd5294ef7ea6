-- ===== src/Value.antt =====
-- The values of JavaScript that the program receives as `unknown`: request bodies and the loosely
-- typed fields of stored documents.
use nexusflow_backend.Prelude.{
  Bool, true, false, String, List, [], ◌∷◌, Number, ◌===◌, if◌then◌else◌, ◌⧺◌,
}

mutual
  pub data Value : Type 0 where
    undefined null : Value
    boolean : Bool → Value
    number : Number → Value
    text : String → Value
    array : Values → Value
    object : Fields → Value

  pub data Values : Type 0 where
    nil : Values
    cons : Value → Values → Values

  pub data Fields : Type 0 where
    end : Fields
    field : String → Value → Fields → Fields

abbrev pub elements : Values → List Value
elements nil = []
elements (cons v vs) = v ∷ elements vs

-- `o.name`: `undefined` where the field is missing.
unfoldable pub property : String → Fields → Value
property name end = undefined
property name (field key v rest) = if key === name then v else property name rest

-- `Array.prototype.join` shows a missing element as the empty text.
abbrev shown : Value → String → String
shown undefined s = ""
shown null s = ""
shown v s = s

-- `String(value)`, where `show_number` is `String` of a number.
module _ (show_number : Number → String) where
  unfoldable mutual
    pub show_value : Value → String
    show_value undefined = "undefined"
    show_value null = "null"
    show_value (boolean true) = "true"
    show_value (boolean false) = "false"
    show_value (number n) = show_number n
    show_value (text s) = s
    show_value (array vs) = show_values vs
    show_value (object fs) = "[object Object]"

    pub show_values : Values → String
    show_values nil = ""
    show_values (cons v nil) = shown v (show_value v)
    show_values (cons v vs) = shown v (show_value v) ⧺ "," ⧺ show_values vs
