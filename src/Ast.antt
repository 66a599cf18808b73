-- ===== src/Ast.antt =====
-- src/include/ast.hh and src/include/astnodes.hh: the nodes that the parser builds. `VectorAST` has no
-- class in the source. The visitors and `lastGen` are used nowhere.
pub mod Print
use llscheme.Base.{ℕ, suc, Bool, Text}

mutual
  pub data Node : Type 0 where
    number : Text → Node
    boolean : Bool → Node
    symbol : Text → Node
    string : Text → Node
    sexpr : Nodes → Bool → Node

  -- `SExprASTNode::args`
  pub data Nodes : Type 0 where
    none_left : Nodes
    arg : Node → Nodes → Nodes

pub data AstType : Type 0 where
  number_ast boolean_ast symbol_ast string_ast sexpr_ast : AstType

-- `ASTNode::getType`
pub get_type : Node → AstType
get_type (number val) = number_ast
get_type (boolean b) = boolean_ast
get_type (symbol s) = symbol_ast
get_type (string s) = string_ast
get_type (sexpr args d) = sexpr_ast

-- `args_size` and `numArgument`
abbrev pub args_size : Nodes → ℕ
args_size none_left = 0
args_size (arg a as') = suc (args_size as')

-- `push_back`
abbrev pub snoc : Nodes → Node → Nodes
snoc none_left a = arg a none_left
snoc (arg b bs) a = arg b (snoc bs a)

-- An expression under construction.
pub record SExpr : Type 0 where
  pub args : Nodes
  pub is_dotted : Bool

abbrev pub new_sexpr : SExpr
new_sexpr = record { args = none_left; is_dotted = Bool.false }

-- `SExprASTNode::addArgument`
unfoldable pub add_argument : SExpr → Node → SExpr
add_argument e a = record e { args = snoc e.args a }

-- `SExprASTNode::tagDotted`
unfoldable pub tag_dotted : SExpr → SExpr
tag_dotted e = record e { is_dotted = Bool.true }

abbrev pub node_of : SExpr → Node
node_of e = sexpr e.args e.is_dotted
