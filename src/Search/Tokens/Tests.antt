-- ===== src/Search/Tokens/Tests.antt =====
-- The examples of the source's comments.
use repolayer.Prelude.{◌≡◌, refl, [], ◌∷◌}
use repolayer.Prelude.Tests.{nat_eq}
use repolayer.Prelude.Dict.{contains}
use repolayer.Prelude.Text.{bytes, text_eq, path_eq}
use repolayer.Search.Tokens.{camel_split, split_identifier, tokenize}
use repolayer.Search.Tokens.Keep.{join, letters, camel_split_keeps}

handler_stack : split_identifier (bytes "HandlerStack") ≡ bytes "handler" ∷ bytes "stack" ∷ []
unfolding split_identifier contains
handler_stack = refl

http_response :
    camel_split (bytes "getHTTPResponse2")
    ≡ bytes "get" ∷ bytes "HTTP" ∷ bytes "Response" ∷ bytes "2" ∷ []
unfolding camel_split
http_response = refl

xml_parser : camel_split (bytes "XMLParser") ≡ bytes "XML" ∷ bytes "Parser" ∷ []
unfolding camel_split
xml_parser = refl

underscores : split_identifier (bytes "my__func_") ≡ bytes "my" ∷ bytes "func" ∷ []
unfolding split_identifier contains
underscores = refl

words :
    tokenize (bytes "fn my_func(x1)")
    ≡ bytes "fn"
      ∷ bytes "my_func"
      ∷ bytes "my"
      ∷ bytes "func"
      ∷ bytes "x1"
      ∷ bytes "x"
      ∷ bytes "1"
      ∷ []
unfolding tokenize contains
words = refl

camel_split_keeps_example :
    join (camel_split (bytes "getHTTP_Response2")) ≡ letters (bytes "getHTTP_Response2")
camel_split_keeps_example = camel_split_keeps (bytes "getHTTP_Response2")
