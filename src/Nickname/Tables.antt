-- ===== src/Nickname/Tables.antt =====
-- The tables of server/src/utils/Nickname.cpp.
use conspire.Prelude.{List, [], ◌∷◌}
use Prim.Native.String.{String}

abbrev pub avatars : List String
avatars =
    "⚽" ∷ "⛄" ∷ "🏖" ∷ "⛵" ∷ "⛺" ∷ "🌀" ∷ "🌭" ∷ "🌲" ∷ "🌵" ∷ "🌶" ∷ "🌺" ∷ "🌻" ∷ "🍀" ∷ "🍄" ∷ "🍕" ∷ "🍭"
    ∷ "🎃" ∷ "🎾" ∷ "🐉" ∷ "🐌" ∷ "🐛" ∷ "🐠" ∷ "🐿" ∷ "🔮" ∷ "🗿" ∷ "🚌" ∷ "🤡" ∷ "🥐" ∷ "🦂" ∷ "🦄" ∷ "🦅" ∷ "🦉"
    ∷ "🦋" ∷ "🦍" ∷ "🦑" ∷ "🦁" ∷ "⛰" ∷ "⛲" ∷ "🌂" ∷ "🎷" ∷ "🌋" ∷ "🌮" ∷ "🌴" ∷ "🍁" ∷ "🍆" ∷ "🍔" ∷ "🍡" ∷ "🍰"
    ∷ "🎅" ∷ "🎈" ∷ "🎭" ∷ "🎲" ∷ "🎸" ∷ "🎺" ∷ "🎻" ∷ "🏀" ∷ "🏂" ∷ "🏈" ∷ "🏉" ∷ "🏓" ∷ "🏹" ∷ "🏺" ∷ "🐈" ∷ "🐋"
    ∷ "🐚" ∷ "🐝" ∷ "🐞" ∷ "🐡" ∷ "🐢" ∷ "🐫" ∷ []

abbrev pub adjectives : List String
adjectives =
    "Attractive" ∷ "Bald" ∷ "Beautiful" ∷ "Chubby" ∷ "Clean" ∷ "Dazzling" ∷ "Drab" ∷ "Elegant"
    ∷ "Fancy" ∷ "Fit" ∷ "Flabby" ∷ "Glamorous" ∷ "Gorgeous" ∷ "Handsome" ∷ "Long" ∷ "Magnificent"
    ∷ "Muscular" ∷ "Plain" ∷ "Plump" ∷ "Quaint" ∷ "Scruffy" ∷ "Shapely" ∷ "Short" ∷ "Skinny"
    ∷ "Stocky" ∷ "Ugly" ∷ "Unkempt" ∷ "Unsightly" ∷ "Ashy" ∷ "Black" ∷ "Blue" ∷ "Gray" ∷ "Green"
    ∷ "Icy" ∷ "Lemon" ∷ "Mango" ∷ "Orange" ∷ "Purple" ∷ "Red" ∷ "Salmon" ∷ "White" ∷ "Yellow"
    ∷ "Aggressive" ∷ "Agreeable" ∷ "Ambitious" ∷ "Brave" ∷ "Calm" ∷ "Delightful" ∷ "Eager"
    ∷ "Faithful" ∷ "Gentle" ∷ "Happy" ∷ "Jolly" ∷ "Kind" ∷ "Lively" ∷ "Nice" ∷ "Obedient" ∷ "Polite"
    ∷ "Proud" ∷ "Silly" ∷ "Thankful" ∷ "Victorious" ∷ "Witty" ∷ "Wonderful" ∷ "Zealous" ∷ "Broad"
    ∷ "Chubby" ∷ "Crooked" ∷ "Curved" ∷ "Deep" ∷ "Flat" ∷ "High" ∷ "Hollow" ∷ "Low" ∷ "Narrow"
    ∷ "Refined" ∷ "Round" ∷ "Shallow" ∷ "Skinny" ∷ "Square" ∷ "Steep" ∷ "Straight" ∷ "Wide" ∷ "Big"
    ∷ "Colossal" ∷ "Fat" ∷ "Gigantic" ∷ "Great" ∷ "Huge" ∷ "Immense" ∷ "Large" ∷ "Little"
    ∷ "Mammoth" ∷ "Massive" ∷ "Microscopic" ∷ "Miniature" ∷ "Petite" ∷ "Puny" ∷ "Scrawny" ∷ "Short"
    ∷ "Small" ∷ "Tall" ∷ "Teeny" ∷ "Tiny" ∷ []

abbrev pub nouns : List String
nouns =
    "Area" ∷ "Book" ∷ "Business" ∷ "Case" ∷ "Child" ∷ "Company" ∷ "Country" ∷ "Day" ∷ "Eye" ∷ "Fact"
    ∷ "Family" ∷ "Government" ∷ "Group" ∷ "Hand" ∷ "Home" ∷ "Job" ∷ "Life" ∷ "Lot" ∷ "Man" ∷ "Money"
    ∷ "Month" ∷ "Mother" ∷ "Mr" ∷ "Night" ∷ "Number" ∷ "Part" ∷ "People" ∷ "Place" ∷ "Point"
    ∷ "Problem" ∷ "Program" ∷ "Question" ∷ "Right" ∷ "Room" ∷ "School" ∷ "State" ∷ "Story"
    ∷ "Student" ∷ "Study" ∷ "System" ∷ "Thing" ∷ "Time" ∷ "Water" ∷ "Way" ∷ "Week" ∷ "Woman"
    ∷ "Word" ∷ "Work" ∷ "World" ∷ "Year" ∷ []
